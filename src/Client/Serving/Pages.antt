-- ===== src/Client/Serving/Pages.antt =====
-- client/room/logic.go: the pages of sendDirFiles.
use friend_net.Prelude.{
  ℕ, zero, suc, ◌+◌, ◌-◌, ◌≤◌, ◌<◌, ◌≡◌, refl, ap, ◌∙◌, sym, ◌⊎◌, inl, inr, Bool, false, Option,
  none, some, List, [], ◌∷◌, ◌++◌, append_assoc, append-nil, ltb, if◌then◌else◌, take, drop, length,
  drop_all, length-drop, arith, All, Bool-cases,
}
use friend_net.Client.Share.{FileMeta}
use friend_net.Client.Serving.{
  PeerReply, page, PeerStream, HandlerErr, err_write, put, send_pages, send_dir_files,
}

module _ {A : Type 0} where
  drop_sum : (a b j : ℕ) (xs : List A) → a + b ≡ j → drop j xs ≡ drop b (drop a xs)
  drop_sum zero b j xs e = let same : j ≡ b = omega arith in rw same
  drop_sum (suc a) zero zero [] e = refl
  drop_sum (suc a) (suc b) zero [] e = refl
  drop_sum (suc a) zero (suc j) [] e = refl
  drop_sum (suc a) (suc b) (suc j) [] e = refl
  drop_sum (suc a) b zero (x ∷ xs) e = absurd (omega arith)
  drop_sum (suc a) b (suc j) (x ∷ xs) e = drop_sum a b j xs (omega arith)

  take-drop : (n : ℕ) (xs : List A) → take n xs ++ drop n xs ≡ xs
  take-drop zero xs = refl
  take-drop (suc n) [] = refl
  take-drop (suc n) (x ∷ xs) = ap (◌∷◌ x) (take-drop n xs)

  length-take : (n : ℕ) (xs : List A) → n ≤ length xs → length (take n xs) ≡ n
  length-take zero xs h = refl
  length-take (suc n) [] h = absurd (omega arith)
  length-take (suc n) (x ∷ xs) h = ap suc (length-take n xs (omega arith))

  -- The first `n` elements, where `n` is 50 or, if there are fewer, all of them.
  take-drop_page :
      (n : ℕ) (xs : List A)
      → n ≤ 50
      → n ≤ length xs
      → (n ≡ 50) ⊎ (n ≡ length xs)
      → take n xs ++ drop 50 xs ≡ xs
  take-drop_page n xs h k (inl e) = rw e (take-drop 50 xs)
  take-drop_page n xs h k (inr e) =
      let none_behind : drop 50 xs ≡ [] = drop_all 50 xs (omega (arith, e, h)) in
      let whole : drop n xs ≡ [] = drop_all n xs (omega (arith, e)) in
      ap (λ l. take n xs ++ l) (none_behind ∙ sym whole) ∙ take-drop n xs

-- The files that the pages list.
abbrev pub listed : List PeerReply → List FileMeta
listed [] = []
listed (page files ∷ replies) = files ++ listed replies
listed (r ∷ replies) = listed replies

abbrev files_on : PeerReply → ℕ
files_on (page files) = length files
files_on r = 0

-- A page of 1 to 50 files.
abbrev pub IsPage : PeerReply → Type 0
IsPage r = (1 ≤ files_on r) × (files_on r ≤ 50)

-- Pages were written that list the files in their order: all of them, or as many as the stream took
-- before a write failed.
pub record IsPaged (files : List FileMeta) (s : PeerStream) (out : PeerStream × Option HandlerErr)
    : Type 0 where
  pub replies : List PeerReply
  pub rest : List FileMeta
  pub grows : out.0.sent ≡ s.sent ++ replies
  pub pages : All IsPage replies
  pub covers : files ≡ listed replies ++ rest
  pub ending :
      ((out.1 ≡ none) × (rest ≡ [])) ⊎ ((out.1 ≡ some err_write) × (length replies ≡ s.left))

abbrev stream : List PeerReply → ℕ → Bool → PeerStream
stream sent left aborts = record { sent = sent; left = left; aborts = aborts }

IsPaged-end : (files : List FileMeta) (s : PeerStream) → files ≡ [] → IsPaged files s (s, none)
IsPaged-end files s e = record {
  replies = [];
  rest = [];
  grows = sym (append-nil s.sent);
  pages = tt;
  covers = e;
  ending = inl (refl, refl);
}

IsPaged-failed :
    (files : List FileMeta) (sent : List PeerReply) (aborts : Bool)
    → IsPaged files (stream sent zero aborts) (stream sent zero aborts, some err_write)
IsPaged-failed files sent aborts = record {
  replies = [];
  rest = files;
  grows = sym (append-nil sent);
  pages = tt;
  covers = refl;
  ending = inr (refl, refl);
}

-- One more page in front.
IsPaged-cons :
    (files first behind : List FileMeta) (sent : List PeerReply) (left : ℕ) (aborts : Bool)
    → (out : PeerStream × Option HandlerErr) → files ≡ first ++ behind
    → IsPage (page first)
    → IsPaged behind (stream (sent ++ page first ∷ []) left aborts) out
    → IsPaged files (stream sent (suc left) aborts) out
IsPaged-cons files first behind sent left aborts out e h p = record {
  replies = page first ∷ p.replies;
  rest = p.rest;
  grows = p.grows ∙ append_assoc sent (page first ∷ []) p.replies;
  pages = (h, p.pages);
  covers = e ∙ ap (λ l. first ++ l) p.covers ∙ sym (append_assoc first (listed p.replies) p.rest);
  ending = more p.ending;
}
  where
    more :
        ((out.1 ≡ none) × (p.rest ≡ [])) ⊎ ((out.1 ≡ some err_write) × (length p.replies ≡ left))
        → ((out.1 ≡ none) × (p.rest ≡ []))
          ⊎ ((out.1 ≡ some err_write) × (suc (length p.replies) ≡ suc left))
    more (inl h) = inl h
    more (inr (r, n)) = inr (r, ap suc n)

-- files[sent:end] of a round.
abbrev next_page : ℕ → List FileMeta → List FileMeta
next_page sent files =
    take ((if ltb (length files) (sent + 50) then length files else sent + 50) - sent)
      (drop sent files)

next_page_lem :
    (sent : ℕ) (files : List FileMeta)
    → sent < length files
    → (drop sent files ≡ next_page sent files ++ drop (sent + 50) files)
      × IsPage (page (next_page sent files))
next_page_lem sent files h =
    let n = (if ltb (length files) (sent + 50) then length files else sent + 50) - sent in
    let l = length-drop sent files in
    let few : n ≤ 50 = ground arith in
    let some_left : 1 ≤ n = ground (arith, h) in
    let within : n ≤ length (drop sent files) = ground (arith, h, l) in
    let which : (n ≡ 50) ⊎ (n ≡ length (drop sent files)) = ground (arith, h, l) in
    let size = length-take n (drop sent files) within in
    (
      sym (take-drop_page n (drop sent files) few within which)
          ∙ ap (λ l. next_page sent files ++ l) (sym (drop_sum sent 50 (sent + 50) files refl)),
      (omega (arith, size, some_left), omega (arith, size, few)),
    )

send_pages-over :
    (fuel sent : ℕ) (files : List FileMeta) (s : PeerStream)
    → ltb sent (length files) ≡ false
    → IsPaged (drop sent files) s (send_pages (suc fuel) sent files s)
unfolding send_pages
send_pages-over fuel sent files s over =
    rw over (IsPaged-end (drop sent files) s (drop_all sent files (ground (arith, over))))

send_pages-IsPaged :
    (fuel sent : ℕ) (files : List FileMeta) (out : List PeerReply) (left : ℕ) (aborts : Bool)
    → length files ≤ sent + fuel
    → IsPaged
        (drop sent files)
        (stream out left aborts)
        (send_pages fuel sent files (stream out left aborts))
unfolding send_pages put
send_pages-IsPaged zero sent files out left aborts h =
    IsPaged-end (drop sent files) (stream out left aborts) (drop_all sent files (omega (arith, h)))
send_pages-IsPaged (suc fuel) sent files out zero aborts h =
    elim (Bool-cases (ltb sent (length files))) [
      | inr over ↦ send_pages-over fuel sent files (stream out zero aborts) over
      | inl more ↦ rw more (IsPaged-failed (drop sent files) out aborts)
    ]
send_pages-IsPaged (suc fuel) sent files out (suc left) aborts h =
    elim (Bool-cases (ltb sent (length files))) [
      | inr over ↦ send_pages-over fuel sent files (stream out (suc left) aborts) over
      | inl more ↦
          let (e, p) = next_page_lem sent files (ground (arith, more)) in
          let sent_more = out ++ page (next_page sent files) ∷ [] in
          let rest =
            send_pages-IsPaged fuel (sent + 50) files sent_more left aborts (omega (arith, h)) in
          rw more (
            IsPaged-cons (drop sent files) (next_page sent files) (drop (sent + 50) files) out left
              aborts _ e p rest)
    ]

-- However many files are sent, pages of 1 to 50 files are written that list them in their order: all of
-- the files, or as many pages as the stream takes before a write fails, and then that error is returned.
pub send_dir_files-IsPaged :
    (files : List FileMeta) (s : PeerStream) → IsPaged files s (send_dir_files files s)
unfolding send_dir_files
send_dir_files-IsPaged files s =
    send_pages-IsPaged (length files) 0 files s.sent s.left s.aborts (omega arith)
