-- ===== src/Client/Downloads/Transfer/Writing.antt =====
-- client/downloadmanager.go: the writes of startDownload to the incomplete file.
use friend_net.Prelude.{
  ℕ, zero, suc, ◌+◌, ◌≤◌, ◌≡◌, refl, ap, sym, [], ◌∷◌, ◌++◌, append-nil, append_assoc, Bytes, arith,
  length, drop_all, length-append,
}
use friend_net.Client.Downloads.Transfer.{pad, write_at}

length-pad : (n : ℕ) (file : Bytes) → length (pad n file) ≡ n
unfolding pad
length-pad zero file = refl
length-pad (suc n) [] = ap suc (length-pad n [])
length-pad (suc n) (c ∷ file) = ap suc (length-pad n file)

pad_all : (file : Bytes) → pad (length file) file ≡ file
unfolding pad
pad_all [] = refl
pad_all (c ∷ file) = ap (◌∷◌ c) (pad_all file)

-- The zeros of a gap.
unfoldable pub zeros : ℕ → Bytes
unfolding pad
zeros n = pad n []

pad-append : (file : Bytes) (n : ℕ) → pad (length file + n) file ≡ file ++ zeros n
unfolding pad zeros
pad-append [] n = ground arith
pad-append (c ∷ file) n =
    let e : suc (length file) + n ≡ suc (length file + n) = omega arith in
    rw e (ap (◌∷◌ c) (pad-append file n))

-- A write at the end or behind it.
write_at_end :
    (pos c : ℕ) (buf file : Bytes)
    → length file ≤ pos
    → write_at pos (c ∷ buf) file ≡ pad pos file ++ (c ∷ buf)
unfolding write_at
write_at_end pos c buf file h =
    rw (drop_all (pos + length (c ∷ buf)) file (omega arith), append-nil (c ∷ buf))

pub length-write_at-le :
    (pos : ℕ) (buf file : Bytes)
    → length file ≤ pos
    → length (write_at pos buf file) ≤ pos + length buf
length-write_at-le pos [] file h = unfold write_at in omega arith
length-write_at-le pos (c ∷ buf) file h =
    rw (write_at_end pos c buf file h)
      (omega (arith, length-append (pad pos file) (c ∷ buf), length-pad pos file))

pad_to : (n : ℕ) (file : Bytes) → n ≡ length file → pad n file ≡ file
pad_to n file e = rw e (pad_all file)

-- Two writes, one behind the other, are one write.
pub write_at-write_at :
    (pos : ℕ) (a b file : Bytes)
    → length file ≤ pos
    → write_at (pos + length a) b (write_at pos a file) ≡ write_at pos (a ++ b) file
write_at-write_at pos [] b file h =
    let e : pos + 0 ≡ pos = omega arith in rw e (unfold write_at in refl)
write_at-write_at pos (c ∷ a) [] file h = rw (append-nil a) (unfold write_at in refl)
write_at-write_at pos (c ∷ a) (d ∷ b) file h =
    let filled : length (pad pos file ++ (c ∷ a)) ≡ pos + suc (length a) =
      omega (arith, length-append (pad pos file) (c ∷ a), length-pad pos file) in
    rw (write_at_end pos c a file h, write_at_end pos c (a ++ (d ∷ b)) file h)
      (rw
        (write_at_end (pos + suc (length a)) d b (pad pos file ++ (c ∷ a)) (omega (arith, filled)))
        (rw (pad_to (pos + suc (length a)) (pad pos file ++ (c ∷ a)) (sym filled))
          (append_assoc (pad pos file) (c ∷ a) (d ∷ b))))

pub write_at-length : (pre b : Bytes) → write_at (length pre) b pre ≡ pre ++ b
write_at-length pre [] = unfold write_at in sym (append-nil pre)
write_at-length pre (c ∷ b) =
    rw (write_at_end (length pre) c b pre (omega arith)) (rw (pad_all pre) refl)

pub write_at_gap :
    (n : ℕ) (pre b : Bytes) → 1 ≤ length b → write_at (length pre + n) b pre ≡ pre ++ (zeros n ++ b)
write_at_gap n pre [] some_bytes = absurd (omega arith)
write_at_gap n pre (c ∷ b) some_bytes =
    rw (write_at_end (length pre + n) c b pre (omega arith))
      (rw (pad-append pre n) (append_assoc pre (zeros n) (c ∷ b)))
