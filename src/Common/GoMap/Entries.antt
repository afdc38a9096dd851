-- ===== src/Common/GoMap/Entries.antt =====
-- The entries of a map as a list: distinct keys, and what a write does to the values.
use Prim.Native.Nat.{suc}
use mathlib.Core.Path.{◌≡◌, refl, sym}
use mathlib.Core.Logic.{if_pos, if_neg}
use mathlib.Core.List.{List, [], ◌∷◌, ◌++◌, Perm, Mem, mem-cons, not-mem-nil}
use mathlib.Core.Logic.Or
use mathlib.Core.Bool.{Bool, true}
use mathlib.Core.List.Perm
use mathlib.Core.Option.{none, some}
use native.Mathlib.Omega.{arith}
use iprl_poc.Common.Tests.{Text, text_eq}
use iprl_poc.Common.Lists.{All, All-of_mem, length}
use iprl_poc.Common.GoMap.{
  Map, Range, get, insert, delete, keys, values, contains, filter_keys, get-insert, get-delete,
}

module _ {V : Type 0} where
  -- No key stands twice, as in every Go map.
  abbrev pub Unique : Map V → Type 0
  Unique [] = Unit
  Unique ((k, v) ∷ m) = (get k m ≡ none) × Unique m

  pub insert-Unique : (k : Text) (v : V) (m : Map V) → Unique m → Unique (insert k v m)
  unfolding get insert
  insert-Unique k v [] h = (refl, tt)
  insert-Unique k v ((j, w) ∷ m) h = ground (arith, insert-Unique k v m h.1, get-insert k j v m)

  pub delete-Unique : (k : Text) (m : Map V) → Unique m → Unique (delete k m)
  unfolding get delete
  delete-Unique k [] h = tt
  delete-Unique k ((j, w) ∷ m) h = ground (arith, delete-Unique k m h.1, get-delete k j m)

  pub values-insert_new :
      (k : Text) (v : V) (m : Map V) → get k m ≡ none → values (insert k v m) ≡ values m ++ v ∷ []
  unfolding get insert
  values-insert_new k v [] h = refl
  values-insert_new k v ((j, w) ∷ m) h = ground (arith, values-insert_new k v m)

  pub delete_missing : (k : Text) (m : Map V) → get k m ≡ none → delete k m ≡ m
  unfolding get delete
  delete_missing k [] h = refl
  delete_missing k ((j, w) ∷ m) h = ground (arith, delete_missing k m)

  pub values-delete-perm :
      (k : Text) (v : V) (m : Map V)
      → Unique m
      → get k m ≡ some v
      → Perm (values m) (v ∷ values (delete k m))
  unfolding get delete
  values-delete-perm k v [] u h = ground arith
  values-delete-perm k v ((j, w) ∷ m) u h = elim (text_eq j k) [
    | yes p ↦
        rw (if_pos _ p)
          (Perm.cons' (ground arith) (rw (delete_missing k m (ground arith)) (Perm.refl _)))
    | no p ↦ rw (if_neg _ p) (
        Perm.trans (Perm.cons w (values-delete-perm k v m u.1 (ground arith)))
          (Perm.swap v w (values (delete k m))))
  ]

  pub values-visit-perm : (r : Range V) (m : Map V) → Perm (values (r.visit m)) (values m)
  values-visit-perm r m = Perm.map _ (r.visit-perm m)

  pub contains-of_mem : (u : Text) (m : Map V) → Mem u (keys m) → contains u m ≡ true
  unfolding get
  contains-of_mem u [] h = absurd (not-mem-nil h)
  contains-of_mem u ((k, v) ∷ m) h =
      let flat : IsSet Bool = hlevel in
      Or.elim (flat _ _) (mem-cons.0 h) (λ e. ground arith)
        (λ later. ground (arith, contains-of_mem u m later))

  pub mem_of_contains : (u : Text) (m : Map V) → contains u m ≡ true → Mem u (keys m)
  unfolding get
  mem_of_contains u [] h = absurd (ground arith)
  mem_of_contains u ((k, v) ∷ m) h = elim (text_eq k u) [
    | yes p ↦ mem-cons.1 (Or.inl (sym p))
    | no p ↦ mem-cons.1 (Or.inr (mem_of_contains u m (ground arith)))
  ]

  -- The keys that a loop visits are the keys.
  pub visit-contains : (r : Range V) (m : Map V) → All (λ u. contains u m ≡ true) (keys (r.visit m))
  visit-contains r m =
      All-of_mem _ _ (λ u h. contains-of_mem u m ((Perm.mem_iff (Perm.map _ (r.visit-perm m))).0 h))

  pub filter_keys-All :
      (m : Map V) (us : List Text) → All (λ u. contains u m ≡ true) us → filter_keys m us ≡ us
  unfolding filter_keys
  filter_keys-All m [] h = refl
  filter_keys-All m (u ∷ us) h = ground (arith, filter_keys-All m us h.1)

  pub visit-nil : (r : Range V) → r.visit [] ≡ []
  visit-nil r = Perm.eq-nil (r.visit-perm [])

-- A new key makes the map longer by one.
pub length-insert_new :
    {V : Type 0} (k : Text) (v : V) (m : Map V)
    → get k m ≡ none
    → length (insert k v m) ≡ suc (length m)
unfolding get insert
length-insert_new k v [] h = refl
length-insert_new k v ((j, w) ∷ m) h = ground (arith, length-insert_new k v m)

-- A loop over a map with one entry visits one.
length-singleton : {A : Type 0} (xs : List A) (a : A) → Perm xs (a ∷ []) → length xs ≡ 1
length-singleton [] a p = let e = Perm.nil-eq p in absurd (cc e)
length-singleton (x ∷ []) a p = refl
length-singleton (x ∷ y ∷ xs) a p = let e = Perm.length-eq p in absurd (cc e)

pub visit-singleton :
    {V : Type 0} (r : Range V) (k : Text) (v : V)
    → (length (values (r.visit ((k, v) ∷ []))) ≡ 1)
      × ((w : V) → Mem w (values (r.visit ((k, v) ∷ []))) → Mem w (v ∷ []))
visit-singleton r k v =
    let same = values-visit-perm r ((k, v) ∷ []) in
    (length-singleton _ v same, λ w m. (Perm.mem_iff same).0 m)
