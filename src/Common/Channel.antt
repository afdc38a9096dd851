-- ===== src/Common/Channel.antt =====
-- Go's buffered channels. An operation that would block is an outcome of its own: in a `select` that
-- case is not ready. A nil channel blocks for ever.
use Prim.Native.Nat.{ℕ, ◌≤◌}
use mathlib.Core.Path.{◌≡◌, refl}
use mathlib.Core.List.{List, [], ◌∷◌, ◌++◌}
use mathlib.Core.Bool.{Bool, true, false}
use mathlib.Core.Option.{Option, none, some}
use native.Mathlib.Omega.{arith}
use mathlib.Core.Logic.{◌⊎◌, inl, inr}
use iprl_poc.Common.Tests.{ltb, if◌then◌else◌, Bool-cases}
use iprl_poc.Common.Lists.{length, length-append}

-- `buffer` has the oldest value first.
pub record Channel {ℓ} (A : Type ℓ) : Type ℓ where
  pub capacity : ℕ
  pub buffer : List A
  pub is_closed : Bool

pub data Sending {ℓ} (A : Type ℓ) : Type ℓ where
  sent : Channel A → Sending A
  send_blocks : Sending A
  send_panics : Sending A

pub data Receiving {ℓ} (A : Type ℓ) : Type ℓ where
  received : A → Channel A → Receiving A
  -- closed and empty: `v, ok := <-ch` with `ok` false
  drained : Receiving A
  recv_blocks : Receiving A

module _ {ℓ} {A : Type ℓ} where
  -- `make(chan A, n)`
  unfoldable pub make : ℕ → Channel A
  make n = record { capacity = n; buffer = []; is_closed = false }

  -- `ch <- v`
  unfoldable pub send : Channel A → A → Sending A
  send ch v =
      if ch.is_closed
      then send_panics
      else if ltb (length ch.buffer) ch.capacity
      then sent (record ch { buffer = ch.buffer ++ v ∷ [] })
      else send_blocks

  recv_from : List A → Channel A → Receiving A
  recv_from [] ch = if ch.is_closed then drained else recv_blocks
  recv_from (v ∷ rest) ch = received v (record ch { buffer = rest })

  -- `<-ch`
  unfoldable pub recv : Channel A → Receiving A
  unfolding recv_from
  recv ch = recv_from ch.buffer ch

  -- `close(ch)`; none is the panic on a channel that is closed already.
  unfoldable pub close : Channel A → Option (Channel A)
  close ch = if ch.is_closed then none else some (record ch { is_closed = true })

  -- The same through a pointer that may be nil.
  unfoldable pub send? : Option (Channel A) → A → Sending A
  send? none v = send_blocks
  send? (some ch) v = send ch v

  unfoldable pub recv? : Option (Channel A) → Receiving A
  recv? none = recv_blocks
  recv? (some ch) = recv ch

  abbrev pub InCapacity : Channel A → Type 0
  InCapacity ch = length ch.buffer ≤ ch.capacity

  pub send-InCapacity : (ch ch' : Channel A) (v : A) → send ch v ≡ sent ch' → InCapacity ch'
  unfolding send
  send-InCapacity ch ch' v h = ground (arith, length-append ch.buffer (v ∷ []))

  -- An open channel takes a value if there is room, and makes the sender wait if not.
  pub send_room :
      (ch : Channel A) (v : A)
      → ch.is_closed ≡ false
      → ltb (length ch.buffer) ch.capacity ≡ true
      → send ch v ≡ sent (record ch { buffer = ch.buffer ++ v ∷ [] })
  unfolding send
  send_room ch v o room = ground arith

  pub send_full :
      (ch : Channel A) (v : A)
      → ch.is_closed ≡ false
      → ltb (length ch.buffer) ch.capacity ≡ false
      → send ch v ≡ send_blocks
  unfolding send
  send_full ch v o full = ground arith

  -- A receive takes the oldest value, and on an empty channel waits or sees that it is closed.
  abbrev pub Recvs : Channel A → List A → Receiving A → Type ℓ
  Recvs ch xs out =
      ((xs ≡ []) × ((out ≡ drained) ⊎ (out ≡ recv_blocks)))
      ⊎ ((v : A) × (rest : List A) × (xs ≡ v ∷ rest)
          × (out ≡ received v (record ch { buffer = rest })))

  recv_from-Recvs : (xs : List A) (ch : Channel A) → Recvs ch xs (recv_from xs ch)
  unfolding recv_from
  recv_from-Recvs [] ch = elim (Bool-cases ch.is_closed) [
    | inl shut ↦ inl (refl, inl (rw shut))
    | inr open_ch ↦ inl (refl, inr (rw open_ch))
  ]
  recv_from-Recvs (v ∷ rest) ch = inr (v, rest, refl, refl)

  pub recv-Recvs : (ch : Channel A) → Recvs ch ch.buffer (recv ch)
  unfolding recv
  recv-Recvs ch = recv_from-Recvs ch.buffer ch

  pub recv_front :
      (ch : Channel A) (v : A) (rest : List A)
      → ch.buffer ≡ v ∷ rest
      → recv ch ≡ received v (record ch { buffer = rest })
  unfolding recv
  recv_front ch v rest e = rw e refl

  -- A send adds the value, or has no effect.
  pub send-Sends :
      (ch : Channel A) (v : A)
      → (send ch v ≡ sent (record ch { buffer = ch.buffer ++ v ∷ [] }))
        ⊎ (send ch v ≡ send_blocks)
        ⊎ (send ch v ≡ send_panics)
  unfolding send
  send-Sends ch v = elim (Bool-cases ch.is_closed) [
    | inl shut ↦ inr (inr (ground arith))
    | inr is_open ↦ elim (Bool-cases (ltb (length ch.buffer) ch.capacity)) [
      | inl room ↦ inl (ground arith)
      | inr full ↦ inr (inl (ground arith))
    ]
  ]
