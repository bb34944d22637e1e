-- ===== src/Prelude/Split.antt =====
-- How strings.Split, strings.Join and strings.IndexByte of `Prelude.Text` fit together.
use Prim.Native.Nat.{ℕ}
use mathlib.Core.Path.{◌≡◌, refl, ap, ◌∙◌}
use mathlib.Core.Logic.{inl, inr}
use mathlib.Core.List.{List, [], ◌∷◌, ◌++◌}
use mathlib.Core.Option.{none, some}
use native.Mathlib.Omega.{arith}
use friend_net.Prelude.Tests.{◌==◌, Bool-cases, ==_iff}
use friend_net.Prelude.Lists.{All, length}
use friend_net.Prelude.Text.{Bytes, Lacks, index_byte, split, join}

module _ (sep : ℕ) where
  pub split_cons : (s : Bytes) → (p : Bytes) × (ps : List Bytes) × (split s sep ≡ p ∷ ps)
  unfolding split
  split_cons [] = ([], [], refl)
  split_cons (x ∷ s) = elim (Bool-cases (x == sep)) [
    | inl e ↦ ([], split s sep, rw e)
    | inr e ↦ let (p, ps, h) = split_cons s in (x ∷ p, ps, rw (e, h))
  ]

  pub All-split : (s : Bytes) → All (Lacks sep) (split s sep)
  unfolding split
  All-split [] = (tt, tt)
  All-split (x ∷ s) = let (p, ps, h) = split_cons s in ground (arith, h, All-split s)

  pub split-Lacks : (s : Bytes) → Lacks sep s → split s sep ≡ s ∷ []
  unfolding split
  split-Lacks [] h = refl
  split-Lacks (x ∷ s) h = ground (arith, split-Lacks s h.1)

  pub split-append : (p s : Bytes) → Lacks sep p → split (p ++ (sep ∷ s)) sep ≡ p ∷ split s sep
  unfolding split
  split-append [] s h = ground arith
  split-append (x ∷ p) s h = ground (arith, split-append p s h.1)

  pub split-join :
      (p : Bytes) (ps : List Bytes)
      → All (Lacks sep) (p ∷ ps)
      → split (join (p ∷ ps) sep) sep ≡ p ∷ ps
  unfolding join
  split-join p [] h = split-Lacks p h.0
  split-join p (q ∷ ps) h =
      split-append p (join (q ∷ ps) sep) h.0 ∙ ap (◌∷◌ p) (split-join q ps h.1)

  join_grow :
      (x : ℕ) (p : Bytes) (ps : List Bytes) → join ((x ∷ p) ∷ ps) sep ≡ x ∷ join (p ∷ ps) sep
  unfolding join
  join_grow x p [] = refl
  join_grow x p (q ∷ ps) = refl

  pub join-split : (s : Bytes) → join (split s sep) sep ≡ s
  unfolding split join
  join-split [] = refl
  join-split (x ∷ s) =
      let (p, ps, h) = split_cons s in ground (arith, h, join-split s, join_grow x p ps)

  -- The first separator cuts the text in two, if there is one.
  pub data FirstIndex (s : Bytes) : Type 0 where
    absent : index_byte s sep ≡ none → Lacks sep s → FirstIndex s
    found :
        (p rest : Bytes)
        → s ≡ p ++ (sep ∷ rest)
        → Lacks sep p
        → index_byte s sep ≡ some (length p)
        → FirstIndex s

  pub first_index : (s : Bytes) → FirstIndex s
  unfolding index_byte
  first_index [] = absent refl tt
  first_index (x ∷ s) = elim (Bool-cases (x == sep)) [
    | inl e ↦ found [] s (ap (λ c. c ∷ s) ((==_iff x sep).0 e)) tt (rw e)
    | inr e ↦ elim (first_index s) [
      | absent n h ↦ absent (rw (e, n)) (λ q. ground arith, h)
      | found p rest q h n ↦ found (x ∷ p) rest (ap (◌∷◌ x) q) (λ q. ground arith, h) (rw (e, n))
    ]
  ]
