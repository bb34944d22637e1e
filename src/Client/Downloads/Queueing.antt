-- ===== src/Client/Downloads/Queueing.antt =====
-- client/downloadmanager.go: what Queue makes of the handles and of the table.
use friend_net.Prelude.{
  ℕ, suc, ◌+◌, ◌≤◌, ◌≡◌, refl, ap, inl, inr, Bool, true, false, Option, none, some, List, [], ◌∷◌,
  ◌++◌, ◌&&◌, ◌||◌, Bytes, bytes_eq, bytes_eq_iff, if◌then◌else◌, arith, Bool-cases, not,
}
use friend_net.Prelude.Count.{
  count_if, reject, get_elem?, set, count_if-append, count_if-set, count_if-get_elem?, count_if_or,
  count_if-reject, count_if_and-le, count_if_and_one,
}
use friend_net.Client.Downloads.{
  Handle, Item, DownloadManager, DownloadStateRecord, Duplicate, exists, slot, item_of, row_item,
  has_uuid, same_file, is_replaceable, find_duplicate, fresh_handle, fresh_record, pick_uuid,
  create_download_state, queue_in, queue,
}
use friend_net.Client.Downloads.Items.{
  IsWellFormed, count_handles, count_rows, Found, find_duplicate-Found,
}

module _ (s p f : Bytes) where
  abbrev mine : Item → Bool
  mine = same_file s p f

  -- The downloads that the statement of CreateDownloadState counts as in conflict with the new one.
  abbrev conflicts : Bytes → Item → Bool
  conflicts u t = has_uuid u t || mine t

  count_rows-create :
      (u : Bytes) (q : Item → Bool) (rows : List DownloadStateRecord)
      → count_rows q (create_download_state u s p f rows)
          + count_rows (λ t. q t && conflicts u t) rows
        ≡ count_rows q rows + (if q (u, s, p, f) then 1 else 0)
  unfolding create_download_state
  count_rows-create u q rows = omega (
    arith,
    count_if-append (λ r. q (row_item r)) (reject (λ r. conflicts u (row_item r)) rows)
        (fresh_record u s p f ∷ []),
    count_if-reject (λ r. conflicts u (row_item r)) (λ r. q (row_item r)) rows,
  )

  -- The key of the new download is no other's.
  same_file_eq :
      (s' p' f' u : Bytes) → same_file s' p' f' (u, s, p, f) ≡ true → (s ≡ s') × (p ≡ p') × (f ≡ f')
  same_file_eq s' p' f' u e =
      ground (arith, bytes_eq_iff s s', bytes_eq_iff p p', bytes_eq_iff f f')

  item_eq : (h : Handle) → mine (item_of h) ≡ true → item_of h ≡ (h.uuid, s, p, f)
  item_eq h e =
      ground (arith, bytes_eq_iff h.server s, bytes_eq_iff h.peer p, bytes_eq_iff h.file_path f)

  module _ (m : DownloadManager) (wf : IsWellFormed m) where
    module _ (fresh : Bytes) (real : bytes_eq fresh [] ≡ false)
        (unused : count_handles (has_uuid fresh) m.handles ≡ 0)
        (none_left : count_handles mine m.handles ≡ 0) where
      abbrev appended : DownloadManager
      appended = record m {
        handles = m.handles ++ (fresh_handle fresh s p f ∷ []);
        storage = create_download_state fresh s p f m.storage;
      }

      count_appended :
          (q : Item → Bool)
          → count_handles q appended.handles
            ≡ count_handles q m.handles + (if q (fresh, s, p, f) then 1 else 0)
      unfolding fresh_handle
      count_appended q =
          omega
            (arith, count_if-append (λ h. q (item_of h)) m.handles (fresh_handle fresh s p f ∷ []))

      no_conflicts : (q : Item → Bool) → count_rows (λ t. q t && conflicts fresh t) m.storage ≡ 0
      no_conflicts q = omega (
        arith,
        count_if_and-le (λ r. conflicts fresh (row_item r)) (λ r. q (row_item r)) m.storage,
        wf.stored (conflicts fresh),
        count_if_or (λ h. has_uuid fresh (item_of h)) (λ h. mine (item_of h)) m.handles,
        unused,
        none_left,
      )

      append-IsWellFormed : IsWellFormed appended
      append-IsWellFormed = record {
        one_file = λ s' p' f'. elim (Bool-cases (same_file s' p' f' (fresh, s, p, f))) [
          | inl e ↦
              let (es, ep, ef) = same_file_eq s' p' f' fresh e in
              ground (arith, count_appended (same_file s' p' f'), es, ep, ef, none_left)
          | inr e ↦ ground (arith, count_appended (same_file s' p' f'), e, wf.one_file s' p' f')
        ];
        one_uuid = λ u.
            ground
              (arith, count_appended (has_uuid u), wf.one_uuid u, bytes_eq_iff fresh u, unused);
        named = ground (arith, count_appended (has_uuid []), wf.named, real);
        stored = λ q. omega (
          arith,
          count_rows-create fresh q m.storage,
          no_conflicts q,
          wf.stored q,
          count_appended q,
        );
      }

    module _ (j : ℕ) (h : Handle) (at : get_elem? m.handles j ≡ some h)
        (same : mine (item_of h) ≡ true) where
      abbrev replaced : DownloadManager
      replaced = record m {
        handles = set m.handles j (fresh_handle h.uuid s p f);
        storage = create_download_state h.uuid s p f m.storage;
      }

      count_replaced :
          (q : Item → Bool) → count_handles q replaced.handles ≡ count_handles q m.handles
      unfolding fresh_handle
      count_replaced q = ground (
        arith,
        count_if-set (λ g. q (item_of g)) m.handles j (fresh_handle h.uuid s p f) h at,
        ap q (item_eq h same),
      )

      one_conflict : count_handles (conflicts h.uuid) m.handles ≤ 1
      one_conflict = ground (
        arith,
        count_if_or (λ g. has_uuid h.uuid (item_of g)) (λ g. mine (item_of g)) m.handles,
        wf.one_uuid h.uuid,
        wf.one_file s p f,
        count_if-get_elem? (λ g. has_uuid h.uuid (item_of g) && mine (item_of g)) m.handles j h at,
        bytes_eq_iff h.uuid h.uuid,
      )

      its_conflict :
          (q : Item → Bool)
          → count_rows (λ t. q t && conflicts h.uuid t) m.storage
            ≡ (if q (h.uuid, s, p, f) then 1 else 0)
      its_conflict q = ground (
        arith,
        wf.stored (λ t. q t && conflicts h.uuid t),
        count_if_and_one (λ g. conflicts h.uuid (item_of g)) (λ g. q (item_of g)) m.handles j h at
            (ground (arith, same)) one_conflict,
        ap q (item_eq h same),
      )

      replace-IsWellFormed : IsWellFormed replaced
      replace-IsWellFormed = record {
        one_file =
            λ s' p' f'. omega (arith, count_replaced (same_file s' p' f'), wf.one_file s' p' f');
        one_uuid = λ u. omega (arith, count_replaced (has_uuid u), wf.one_uuid u);
        named = omega (arith, count_replaced (has_uuid []), wf.named);
        stored = λ q. omega (
          arith,
          count_rows-create h.uuid q m.storage,
          its_conflict q,
          wf.stored q,
          count_replaced q,
        );
      }

      has_name : bytes_eq h.uuid [] ≡ false
      has_name =
          ground
            (arith, wf.named, count_if-get_elem? (λ g. has_uuid [] (item_of g)) m.handles j h at)

    -- What Queue has made of the handles, by how its search ended: nothing, a handle at the end, or
    -- a handle in place of one that was canceled or had failed.
    module _ (fault : Bool) (fresh : Bytes) (real : bytes_eq fresh [] ≡ false)
        (unused : count_handles (has_uuid fresh) m.handles ≡ 0) where
      pub queue_in-IsWellFormed :
          (d : Duplicate)
          → find_duplicate s p f m.handles 0 none ≡ d
          → IsWellFormed (queue_in fault fresh s p f m d).0
      unfolding queue_in Found
      queue_in-IsWellFormed exists e = wf
      queue_in-IsWellFormed (slot found) e = elim (Bool-cases fault) [
        | inl bad ↦ rw bad wf
        | inr good ↦ elim (find_duplicate-Found s p f m.handles 0 none found e) [
          | inl (e', none_left) ↦ rw good (rw e' (append-IsWellFormed fresh real unused none_left))
          | inr (j, h, e', at, same, old) ↦
              let at_j : found ≡ some (j, h.uuid) = ground (arith, e') in
              rw good (rw at_j (rw (has_name j h at same) (replace-IsWellFormed j h at same)))
        ]
      ]

-- Queue keeps the memory well formed and the table in step with it, whether or not its statement
-- fails, when the UUID it generates is new: no file is ever listed twice.
pub queue-IsWellFormed :
    (fault : Bool) (fresh server peer path : Bytes) (m : DownloadManager)
    → IsWellFormed m
    → bytes_eq fresh [] ≡ false
    → count_handles (has_uuid fresh) m.handles ≡ 0
    → IsWellFormed (queue fault fresh server peer path m).0
unfolding queue
queue-IsWellFormed fault fresh server peer path m wf real unused =
    queue_in-IsWellFormed server peer path m wf fault fresh real unused _ refl

abbrev pub is_active : Bytes → Bytes → Bytes → Handle → Bool
is_active s p f h = not (is_replaceable h.status) && same_file s p f (item_of h)

module _ (s p f : Bytes) where
  find_duplicate-exists :
      (hs : List Handle) (i : ℕ) (found : Option (ℕ × Bytes))
      → find_duplicate s p f hs i found ≡ exists
      → 1 ≤ count_if (is_active s p f) hs
  unfolding find_duplicate
  find_duplicate-exists [] i found e = cc
  find_duplicate-exists (h ∷ hs) i found e = elim (Bool-cases (same_file s p f (item_of h))) [
    | inl same ↦ ground (arith, same, find_duplicate-exists hs (suc i) (some (i, h.uuid)))
    | inr other ↦ ground (arith, other, find_duplicate-exists hs (suc i) found)
  ]

  queue_in-active :
      (fresh : Bytes) (m : DownloadManager) (d : Duplicate)
      → find_duplicate s p f m.handles 0 none ≡ d
      → 1 ≤ count_if (is_active s p f) (queue_in false fresh s p f m d).0.handles
  unfolding queue_in Found fresh_handle
  queue_in-active fresh m exists e = find_duplicate-exists m.handles 0 none e
  queue_in-active fresh m (slot found) e =
      elim (find_duplicate-Found s p f m.handles 0 none found e) [
        | inl (e', none_left) ↦ rw e' (
            ground (
              arith,
              count_if-append (is_active s p f) m.handles (fresh_handle fresh s p f ∷ []),
              bytes_eq_iff s s,
              bytes_eq_iff p p,
              bytes_eq_iff f f,
            ))
        | inr (j, h, e', at, same, old) ↦
            let uid = pick_uuid fresh found in
            let at_j : found ≡ some (j, h.uuid) = ground (arith, e') in
            rw at_j (
              ground (
                arith,
                count_if-set (is_active s p f) m.handles j
                    (fresh_handle (pick_uuid fresh (some (j, h.uuid))) s p f) h at,
                old,
                bytes_eq_iff s s,
                bytes_eq_iff p p,
                bytes_eq_iff f f,
              ))
      ]

-- Where its statement does not fail, Queue leaves exactly one handle of the file that is neither
-- canceled nor failed, whatever handles there were before, when the UUID it generates is new.
pub queue_active :
    (fresh server peer path : Bytes) (m : DownloadManager)
    → IsWellFormed m
    → bytes_eq fresh [] ≡ false
    → count_handles (has_uuid fresh) m.handles ≡ 0
    → count_if (is_active server peer path) (queue false fresh server peer path m).0.handles ≡ 1
unfolding queue
queue_active fresh server peer path m wf real unused = omega (
  arith,
  queue_in-active server peer path fresh m _ refl,
  (queue_in-IsWellFormed server peer path m wf false fresh real unused _ refl).one_file server peer
      path,
  count_if_and-le (λ h. same_file server peer path (item_of h)) (λ h. not (is_replaceable h.status))
      (queue_in false fresh server peer path m
        (find_duplicate server peer path m.handles 0 none)).0.handles,
)
