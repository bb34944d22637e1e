-- ===== src/Server/Logic/Pages.antt =====
-- The pages of online users of server/room/logic.go.
use friend_net.Prelude.{
  ℕ, zero, suc, ◌≡◌, ◌≤◌, ◌<◌, refl, length-drop, Bool, ap, ◌∙◌, true, List, [], ◌∷◌, ◌++◌, Bytes,
  length, take, drop, All, arith,
}
use friend_net.Server.Logic.{page_size, send_pages, send_online_users}

pub concat : List (List Bytes) → List Bytes
concat [] = []
concat (page ∷ pages) = page ++ concat pages

take-append-drop : (n : ℕ) (s : List Bytes) → take n s ++ drop n s ≡ s
take-append-drop zero s = refl
take-append-drop (suc n) [] = refl
take-append-drop (suc n) (x ∷ s) = ap (◌∷◌ x) (take-append-drop n s)

length-take_le : (n : ℕ) (s : List Bytes) → length (take n s) ≤ n
length-take_le zero s = omega arith
length-take_le (suc n) [] = omega arith
length-take_le (suc n) (x ∷ s) = omega (arith, length-take_le n s)

abbrev pub FitsPage : List Bytes → Type 0
FitsPage page = (1 ≤ length page) × (length page ≤ page_size)

abbrev always : List Bytes → Bool
always page = true

send_pages_told :
    (fuel : ℕ) (statuses : List Bytes)
    → length statuses < fuel
    → (concat (send_pages always fuel statuses).0 ≡ statuses)
      × All FitsPage (send_pages always fuel statuses).0
      × ((send_pages always fuel statuses).1 ≡ true)
unfolding send_pages concat
send_pages_told zero statuses h = absurd (omega arith)
send_pages_told (suc fuel) [] h = (refl, tt, refl)
send_pages_told (suc fuel) (s ∷ statuses) h =
    let rest = drop 49 statuses in
    let (whole, fit, told) = send_pages_told fuel rest (omega (arith, length-drop 49 statuses)) in
    (
      ap (λ t. (s ∷ take 49 statuses) ++ t) whole ∙ ap (◌∷◌ s) (take-append-drop 49 statuses),
      ((omega arith, omega (arith, length-take_le 49 statuses)), fit),
      told,
    )

-- Where every page can be written, the pages in their order hold every status once, each page one
-- to fifty of them, and the handler reports no error.
pub send_online_users_lem :
    (statuses : List Bytes)
    → (concat (send_online_users (λ page. true) statuses).0 ≡ statuses)
      × All FitsPage (send_online_users (λ page. true) statuses).0
      × ((send_online_users (λ page. true) statuses).1 ≡ true)
unfolding send_online_users
send_online_users_lem statuses = send_pages_told (suc (length statuses)) statuses (omega arith)
