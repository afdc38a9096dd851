-- ===== src/Components.antt =====
-- The interfaces of internal/components/components.go that the managers use their parts through: the
-- operations as a record, and what the comments ask of an implementation as a predicate on it.
pub mod Output
pub mod Group
pub mod Serving
pub mod Member
pub mod Meta
use iprl_poc.Common.{List, ◌++◌, Option, some, Bool, true, ◌≡◌}
use iprl_poc.Common.Channel.{Channel}
use iprl_poc.Proto.{ProbingDirective, ForwardingInfoElement}

-- `Prober`: the channels that PushChannel and PullChannel give, the state after a caller has used one
-- of them, the steps of Run that do not panic, whether Run returns when its next select finds the
-- context done or Close called, whether Close has left nothing in use, and Close, which is none where it
-- panics.
pub record Prober : Type 1 where
  pub State : Type 0
  pub push_channel : State → Channel ProbingDirective
  pub pull_channel : State → Channel ForwardingInfoElement
  pub pushed : State → Channel ProbingDirective → State
  pub pulled : State → Channel ForwardingInfoElement → State
  pub Runs : State → State → Type 0
  pub Returns : State → Type 0
  pub Released : State → Type 0
  pub close : State → Option State

-- The output of `s` becomes that of `t` by values put at its end, or by none if it is closed.
pub record Emits {A : Type 0} (before after : Channel A) : Type 0 where
  pub values : List A
  pub at_end : after.buffer ≡ before.buffer ++ values
  pub same_state : after.is_closed ≡ before.is_closed

-- "Run blocks until the context is cancelled or an unrecoverable error occurs. Close releases all
-- resources held by the prober and must be idempotent. After Close is called, no further values will be emitted." `Valid` is
-- the implementation's invariant, which every operation keeps.
pub record IsProber (p : Prober) : Type 1 where
  pub Valid : p.State → Type 0
  pub pushed-Valid : (s : p.State) (ch : Channel ProbingDirective) → Valid s → Valid (p.pushed s ch)
  pub pushed-pull_channel :
      (s : p.State) (ch : Channel ProbingDirective)
      → p.pull_channel (p.pushed s ch) ≡ p.pull_channel s
  pub pulled-Valid :
      (s : p.State) (ch : Channel ForwardingInfoElement)
      → ch.is_closed ≡ (p.pull_channel s).is_closed
      → Valid s
      → Valid (p.pulled s ch)
  pub pulled-pull_channel :
      (s : p.State) (ch : Channel ForwardingInfoElement) → p.pull_channel (p.pulled s ch) ≡ ch
  pub runs-Valid : (s t : p.State) → p.Runs s t → Valid s → Valid t
  pub runs-Emits : (s t : p.State) → p.Runs s t → Emits (p.pull_channel s) (p.pull_channel t)
  pub runs_closed :
      (s t : p.State)
      → p.Runs s t
      → (p.pull_channel s).is_closed ≡ true
      → p.pull_channel t ≡ p.pull_channel s
  pub stops : (s : p.State) → p.Returns s
  pub close_works : (s : p.State) → Valid s → (t : p.State) × (p.close s ≡ some t)
  pub close-Released : (s t : p.State) → p.close s ≡ some t → Valid s → p.Released t
  pub close-Valid : (s t : p.State) → p.close s ≡ some t → Valid s → Valid t
  pub close-pull_channel :
      (s t : p.State)
      → p.close s ≡ some t
      → Valid s
      → ((p.pull_channel t).is_closed ≡ true)
        × ((p.pull_channel t).buffer ≡ (p.pull_channel s).buffer)
  pub close_again : (s t : p.State) → p.close s ≡ some t → p.close t ≡ some t

-- `DirectiveGenerator`, in the same way.
pub record DirectiveGenerator : Type 1 where
  pub State : Type 0
  pub pull_channel : State → Channel ProbingDirective
  pub pulled : State → Channel ProbingDirective → State
  pub Runs : State → State → Type 0
  pub Returns : State → Type 0
  pub close : State → Option State

-- Run returns at a select that finds the context done or Close called. Close does not panic, is
-- idempotent and closes the channel; Run puts directives at its end, and none once it is
-- closed.
pub record IsDirectiveGenerator (g : DirectiveGenerator) : Type 1 where
  pub Valid : g.State → Type 0
  pub pulled-Valid :
      (s : g.State) (ch : Channel ProbingDirective)
      → ch.is_closed ≡ (g.pull_channel s).is_closed
      → Valid s
      → Valid (g.pulled s ch)
  pub pulled-pull_channel :
      (s : g.State) (ch : Channel ProbingDirective) → g.pull_channel (g.pulled s ch) ≡ ch
  pub runs-Valid : (s t : g.State) → g.Runs s t → Valid s → Valid t
  pub runs-Emits : (s t : g.State) → g.Runs s t → Emits (g.pull_channel s) (g.pull_channel t)
  pub runs_closed :
      (s t : g.State)
      → g.Runs s t
      → (g.pull_channel s).is_closed ≡ true
      → g.pull_channel t ≡ g.pull_channel s
  pub stops : (s : g.State) → g.Returns s
  pub close_works : (s : g.State) → Valid s → (t : g.State) × (g.close s ≡ some t)
  pub close-Valid : (s t : g.State) → g.close s ≡ some t → Valid s → Valid t
  pub close-pull_channel :
      (s t : g.State)
      → g.close s ≡ some t
      → Valid s
      → ((g.pull_channel t).is_closed ≡ true)
        × ((g.pull_channel t).buffer ≡ (g.pull_channel s).buffer)
  pub close_again : (s t : g.State) → g.close s ≡ some t → g.close t ≡ some t
