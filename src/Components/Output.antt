-- ===== src/Components/Output.antt =====
-- What one step of a prober or of a directive generator does to its output channel, as those of
-- internal/components share it.
use iprl_poc.Common.{[], ◌∷◌, ◌++◌, true, false, ◌≡◌, refl, sym, append-nil, ◌⊎◌, inl, inr, arith}
use iprl_poc.Common.Channel.{Channel, sent, send}
use iprl_poc.Components.{Emits}

-- The output stays as it was, or takes one element at its end while it is open.
abbrev pub IsOutput : {A : Type 0} → Channel A → Channel A → Type 0
IsOutput {A} ch ch' =
    (ch' ≡ ch)
    ⊎ ((e : A) × (ch.is_closed ≡ false) × (ch' ≡ record ch { buffer = ch.buffer ++ e ∷ [] }))

module _ {A : Type 0} (ch ch' : Channel A) where
  pub sent_open : (e : A) → send ch e ≡ sent ch' → ch.is_closed ≡ false
  unfolding send
  sent_open e h = ground arith

  pub IsOutput-Emits : IsOutput ch ch' → Emits ch ch'
  IsOutput-Emits (inl same) =
      rw same (record { values = []; at_end = sym (append-nil ch.buffer); same_state = refl })
  IsOutput-Emits (inr (e, is_open, more)) =
      rw more (record { values = e ∷ []; at_end = refl; same_state = refl })

  pub IsOutput-closed : IsOutput ch ch' → ch.is_closed ≡ true → ch' ≡ ch
  IsOutput-closed (inl same) shut = same
  IsOutput-closed (inr (e, is_open, more)) shut = absurd (ground arith)
