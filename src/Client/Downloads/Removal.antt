-- ===== src/Client/Downloads/Removal.antt =====
-- client/downloadmanager.go: what Remove takes out of the handles and of the table.
use friend_net.Prelude.{◌+◌, ◌≤◌, ◌≡◌, Bool, true, false, List, [], ◌∷◌, ◌&&◌, Bytes, arith}
use friend_net.Prelude.Count.{count_if-reject, count_if_and-le, count_if_and_self}
use friend_net.Client.Downloads.{
  Handle, Item, DownloadManager, item_of, row_item, has_uuid, same_file, without_handle, remove,
  delete_download_state,
}
use friend_net.Client.Downloads.Items.{IsWellFormed, count_handles, count_rows}

-- Removing what the UUID names takes away its downloads and leaves every other.
count-without_handle :
    (q : Item → Bool) (uuid : Bytes) (hs : List Handle)
    → count_handles (has_uuid uuid) hs ≤ 1
    → count_handles q (without_handle uuid hs) + count_handles (λ t. q t && has_uuid uuid t) hs
      ≡ count_handles q hs
unfolding without_handle
count-without_handle q uuid [] one = omega arith
count-without_handle q uuid (h ∷ hs) one = ground (
  arith,
  count-without_handle q uuid hs,
  count_if_and-le (λ g. has_uuid uuid (item_of g)) (λ g. q (item_of g)) hs,
)

module _ (uuid : Bytes) (m : DownloadManager) (wf : IsWellFormed m) where
  count_handles-remove :
      (q : Item → Bool)
      → count_handles q (remove false uuid m).0.handles
          + count_handles (λ t. q t && has_uuid uuid t) m.handles
        ≡ count_handles q m.handles
  unfolding remove
  count_handles-remove q = count-without_handle q uuid m.handles (wf.one_uuid uuid)

  count_rows-remove :
      (q : Item → Bool)
      → count_rows q (remove false uuid m).0.storage
          + count_rows (λ t. q t && has_uuid uuid t) m.storage
        ≡ count_rows q m.storage
  unfolding remove delete_download_state
  count_rows-remove q =
      count_if-reject (λ r. has_uuid uuid (row_item r)) (λ r. q (row_item r)) m.storage

  remove_invariant : (fault : Bool) → IsWellFormed (remove fault uuid m).0
  remove_invariant true = unfold remove in wf
  remove_invariant false = record {
    one_file = λ s p f. omega (arith, count_handles-remove (same_file s p f), wf.one_file s p f);
    one_uuid = λ u. omega (arith, count_handles-remove (has_uuid u), wf.one_uuid u);
    named = omega (arith, count_handles-remove (has_uuid []), wf.named);
    stored = λ q. omega (
      arith,
      count_handles-remove q,
      count_rows-remove q,
      wf.stored q,
      wf.stored (λ t. q t && has_uuid uuid t),
    );
  }

  gone : count_handles (has_uuid uuid) (remove false uuid m).0.handles ≡ 0
  gone = omega (
    arith,
    count_handles-remove (has_uuid uuid),
    count_if_and_self (λ h. has_uuid uuid (item_of h)) m.handles,
  )

-- Remove keeps the memory well formed and the table in step with it, whether or not its statement
-- fails; where it does not fail, neither the memory nor the table holds the UUID any more.
pub remove-IsWellFormed :
    (fault : Bool) (uuid : Bytes) (m : DownloadManager)
    → IsWellFormed m
    → IsWellFormed (remove fault uuid m).0
      × (count_handles (has_uuid uuid) (remove false uuid m).0.handles ≡ 0)
      × (count_rows (has_uuid uuid) (remove false uuid m).0.storage ≡ 0)
remove-IsWellFormed fault uuid m wf =
    let after : IsWellFormed (remove false uuid m).0 = remove_invariant uuid m wf false in
    (
      remove_invariant uuid m wf fault,
      gone uuid m wf,
      omega (arith, after.stored (has_uuid uuid), gone uuid m wf),
    )
