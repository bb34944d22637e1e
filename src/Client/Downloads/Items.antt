-- ===== src/Client/Downloads/Items.antt =====
-- client/downloadmanager.go: which downloads the manager holds in memory and in the table, and what
-- the search of Queue sees.
use friend_net.Prelude.{
  ℕ, suc, ◌+◌, ◌≤◌, ◌≡◌, refl, ◌⊎◌, inl, inr, Bool, true, Option, some, List, [], ◌∷◌, Bytes, arith,
  Bool-cases,
}
use friend_net.Prelude.Count.{count_if, get_elem?}
use friend_net.Client.Downloads.{
  Handle, Item, DownloadManager, DownloadStateRecord, slot, item_of, row_item, has_uuid, same_file,
  is_replaceable, find_duplicate,
}

abbrev pub count_handles : (Item → Bool) → List Handle → ℕ
count_handles q = count_if (λ h. q (item_of h))

abbrev pub count_rows : (Item → Bool) → List DownloadStateRecord → ℕ
count_rows q = count_if (λ r. q (row_item r))

-- No two handles are of one file or share a UUID, none lacks a UUID, and the table lists the same
-- downloads as the memory, whatever their order.
pub record IsWellFormed (m : DownloadManager) : Type 0 where
  pub one_file : (s p f : Bytes) → count_handles (same_file s p f) m.handles ≤ 1
  pub one_uuid : (u : Bytes) → count_handles (has_uuid u) m.handles ≤ 1
  pub named : count_handles (has_uuid []) m.handles ≡ 0
  pub stored : (q : Item → Bool) → count_rows q m.storage ≡ count_handles q m.handles

module _ (s p f : Bytes) where
  abbrev pub mine : Item → Bool
  mine = same_file s p f

  -- What a search that ends in a slot has seen: no handle of the file, or one that may be replaced.
  unfoldable pub Found : List Handle → ℕ → Option (ℕ × Bytes) → Option (ℕ × Bytes) → Type 0
  Found hs i found found' =
      ((found' ≡ found) × (count_handles mine hs ≡ 0))
      ⊎ ((j : ℕ) × (h : Handle) × (found' ≡ some (i + j, h.uuid))
          × (get_elem? hs j ≡ some h)
          × (mine (item_of h) ≡ true)
          × (is_replaceable h.status ≡ true))

  pub find_duplicate-Found :
      (hs : List Handle) (i : ℕ) (found found' : Option (ℕ × Bytes))
      → find_duplicate s p f hs i found ≡ slot found'
      → Found hs i found found'
  unfolding find_duplicate Found
  find_duplicate-Found [] i found found' e = inl (ground arith, refl)
  find_duplicate-Found (h ∷ hs) i found found' e = elim (Bool-cases (mine (item_of h))) [
    | inl same ↦ elim (Bool-cases (is_replaceable h.status)) [
      | inl old ↦
          elim (find_duplicate-Found hs (suc i) (some (i, h.uuid)) found'
            (ground (arith, e, same, old))) [
              | inl (e', none_left) ↦ inr (0, h, ground (arith, e'), refl, same, old)
              | inr (j, g, e', at, same', old') ↦
                  inr (suc j, g, ground (arith, e'), at, same', old')
            ]
      | inr new ↦ absurd (ground (arith, e, same, new))
    ]
    | inr other ↦ elim (find_duplicate-Found hs (suc i) found found' (ground (arith, e, other))) [
      | inl (e', none_left) ↦ inl (e', ground (arith, other, none_left))
      | inr (j, g, e', at, same', old') ↦ inr (suc j, g, ground (arith, e'), at, same', old')
    ]
  ]
