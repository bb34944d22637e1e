-- ===== src/Protocol/Framing/Reads.antt =====
-- The loops of ReadRaw in protocol/protocol.go over a stream that ends with io.EOF.
use friend_net.Prelude.{
  ℕ, zero, suc, ◌-◌, ◌≤◌, ◌≡◌, refl, ap, ◌∙◌, sym, [], ◌∷◌, ◌++◌, Bytes, arith, length, take, drop,
  length-append, take-append, drop-append, drop_all, Bool-cases, inl, inr, ltb,
}
use friend_net.Protocol.Framing.{Source, StreamErr, more, last, ends, eof, filled, fill}

-- All bytes that are still to come, and the error behind them.
abbrev pub flatten : Source → Bytes
flatten (more c s) = c ++ flatten s
flatten (last c e) = c
flatten (ends e) = []

abbrev pub closes : Source → StreamErr
closes (more c s) = closes s
closes (last c e) = e
closes (ends e) = e

take_all : (n : ℕ) (b : Bytes) → length b ≤ n → take n b ≡ b
take_all zero [] h = refl
take_all zero (x ∷ b) h = absurd (omega arith)
take_all (suc n) [] h = refl
take_all (suc n) (x ∷ b) h = ap (◌∷◌ x) (take_all n b (omega arith))

take_within : (n : ℕ) (b rest : Bytes) → n ≤ length b → take n (b ++ rest) ≡ take n b
take_within zero b rest h = refl
take_within (suc n) [] rest h = absurd (omega arith)
take_within (suc n) (x ∷ b) rest h = ap (◌∷◌ x) (take_within n b rest (omega arith))

drop_within : (n : ℕ) (b rest : Bytes) → n ≤ length b → drop n (b ++ rest) ≡ drop n b ++ rest
drop_within zero b rest h = refl
drop_within (suc n) [] rest h = absurd (omega arith)
drop_within (suc n) (x ∷ b) rest h = drop_within n b rest (omega arith)

take_beyond :
    (b : Bytes) (n : ℕ) (rest : Bytes)
    → length b ≤ n
    → take n (b ++ rest) ≡ b ++ take (n - length b) rest
take_beyond [] n rest h = let e : n - 0 ≡ n = omega arith in rw e
take_beyond (x ∷ b) zero rest h = absurd (omega arith)
take_beyond (x ∷ b) (suc n) rest h =
    let e : suc n - suc (length b) ≡ n - length b = omega arith in
    rw e (ap (◌∷◌ x) (take_beyond b n rest (omega arith)))

drop_beyond :
    (b : Bytes) (n : ℕ) (rest : Bytes)
    → length b ≤ n
    → drop n (b ++ rest) ≡ drop (n - length b) rest
drop_beyond [] n rest h = let e : n - 0 ≡ n = omega arith in rw e
drop_beyond (x ∷ b) zero rest h = absurd (omega arith)
drop_beyond (x ∷ b) (suc n) rest h =
    let e : suc n - suc (length b) ≡ n - length b = omega arith in
    rw e (drop_beyond b n rest (omega arith))

-- What a read of `n` bytes gives where they are there.
abbrev Served : ℕ → Source → Type 0
Served n s =
    (s' : Source) × (fill n s ≡ filled (take n (flatten s)) s')
    × (flatten s' ≡ drop n (flatten s))
    × (closes s' ≡ eof)

fill-Served : (s : Source) (n : ℕ) → closes s ≡ eof → n ≤ length (flatten s) → Served n s
unfolding fill
fill-Served s zero e h = (s, refl, refl, e)
fill-Served (ends x) (suc n) e h = absurd (omega arith)
fill-Served (last c x) (suc n) e h = elim (Bool-cases (ltb (suc n) (length c))) [
  | inl cut ↦ (last (drop (suc n) c) x, rw cut refl, refl, e)
  | inr whole ↦
      let exact : length c ≡ suc n = ground (arith, h, whole) in
      (
        ends x,
        ground (arith, whole, exact, e, take_all (suc n) c),
        sym (drop_all (suc n) c (omega (arith, exact))),
        e,
      )
]
fill-Served (more c s) (suc n) e h = elim (Bool-cases (ltb (suc n) (length c))) [
  | inl cut ↦
      let within : suc n ≤ length c = ground (arith, cut) in
      (
        more (drop (suc n) c) s,
        rw cut (
            ap (λ b. filled b (more (drop (suc n) c) s))
              (sym (take_within (suc n) c (flatten s) within))),
        sym (drop_within (suc n) c (flatten s) within),
        e,
      )
  | inr whole ↦
      let beyond : length c ≤ suc n = ground (arith, whole) in
      let (s', served, left, ends_so) =
        fill-Served s (suc n - length c) e (omega (arith, h, length-append c (flatten s))) in
      (
        s',
        ground (arith, whole, served, take_beyond c (suc n) (flatten s) beyond),
        left ∙ sym (drop_beyond c (suc n) (flatten s) beyond),
        ends_so,
      )
]

-- The same, for bytes in front of a rest.
pub fill_front :
    (b rest : Bytes) (n : ℕ) (s : Source)
    → length b ≡ n
    → flatten s ≡ b ++ rest
    → closes s ≡ eof
    → (s' : Source) × (fill n s ≡ filled b s') × (flatten s' ≡ rest) × (closes s' ≡ eof)
fill_front b rest n s size e closed =
    let (s', served, left, ends_so) =
      fill-Served s n closed (rw e (omega (arith, length-append b rest, size))) in
    let taken : take n (flatten s) ≡ b = rw (e, ← size) (take-append b rest) in
    let dropped : drop n (flatten s) ≡ rest = rw (e, ← size) (drop-append b rest) in
    (s', served ∙ ap (λ front. filled front s') taken, left ∙ dropped, ends_so)
