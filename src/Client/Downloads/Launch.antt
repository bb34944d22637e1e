-- ===== src/Client/Downloads/Launch.antt =====
-- client/downloadmanager.go: the ticks of the downloader, and which downloads get their turn.
--
-- A tick sees how many workers are active and starts workers on handles in the status QUEUED. `run`
-- is what becomes of a handle by its worker, which is taken to end before the next tick.
use friend_net.Prelude.{
  ℕ, suc, ◌+◌, ◌-◌, ◌^◌, ◌≤◌, ◌<◌, ◌≡◌, refl, ap, inl, inr, All, zero, Bool-cases, Bool, true,
  false, List, [], ◌∷◌, ◌++◌, ◌||◌, if◌then◌else◌, leb, ◌==◌, arith, take, drop, length,
  drop-append,
}
use friend_net.Prelude.Count.{count_if}
use friend_net.Client.Downloads.{Handle, Status}

abbrev pub is_queued : Status → Bool
is_queued Status.queued = true
is_queued Status.unspecified = false
is_queued Status.pending = false
is_queued Status.canceled = false
is_queued Status.done = false
is_queued Status.error = false

-- The setting, an int64, if it is at least 1, and 1 otherwise.
unfoldable pub concurrency : ℕ → ℕ
concurrency setting = if setting == 0 || leb (2 ^ 63) setting then 1 else setting

-- The handles on which the loop starts a worker, with `launched` workers active before.
unfoldable pub scan : ℕ → ℕ → List Handle → List Handle
scan limit launched [] = []
scan limit launched (h ∷ hs) =
    let after = scan limit (launched + 1) hs in
    let beside = scan limit launched hs in
    if leb limit launched then [] else if is_queued h.status then h ∷ after else beside

-- The handles once those workers have run.
unfoldable pub launch : (Handle → Handle) → ℕ → ℕ → List Handle → List Handle
launch run limit launched [] = []
launch run limit launched (h ∷ hs) =
    let after = launch run limit (launched + 1) hs in
    let beside = launch run limit launched hs in
    if leb limit launched then h ∷ hs else if is_queued h.status then run h ∷ after else h ∷ beside

-- One tick for each number of active workers.
unfoldable pub downloader : (Handle → Handle) → ℕ → List ℕ → List Handle → List Handle
unfolding concurrency launch
downloader run setting [] hs = hs
downloader run setting (active ∷ ticks) hs =
    downloader run setting ticks (launch run (concurrency setting) active hs)

-- The handles in the status QUEUED, in the order of the list.
unfoldable pub queued_in : List Handle → List Handle
queued_in [] = []
queued_in (h ∷ hs) = let rest = queued_in hs in if is_queued h.status then h ∷ rest else rest

scan-take_room :
    (room limit launched : ℕ) (hs : List Handle)
    → limit - launched ≡ room
    → scan limit launched hs ≡ take room (queued_in hs)
unfolding scan queued_in
scan-take_room zero limit launched [] e = refl
scan-take_room zero limit launched (h ∷ hs) e = ground arith
scan-take_room (suc room) limit launched [] e = refl
scan-take_room (suc room) limit launched (h ∷ hs) e = ground (
  arith,
  scan-take_room room limit (launched + 1) hs,
  scan-take_room (suc room) limit launched hs,
)

-- A tick starts workers on the QUEUED handles in the order of the list, on as many as the limit
-- leaves room for beside the active workers, and on no others.
pub scan-take :
    (limit launched : ℕ) (hs : List Handle)
    → scan limit launched hs ≡ take (limit - launched) (queued_in hs)
scan-take limit launched hs = scan-take_room (limit - launched) limit launched hs refl

abbrev pub waiting : List Handle → ℕ
waiting = count_if (λ h. is_queued h.status)

-- Where no worker leaves its handle QUEUED, a tick takes as many handles off the waiting ones as it
-- has room for.
waiting-launch :
    (run : Handle → Handle)
    → ((h : Handle) → is_queued (run h).status ≡ false)
    → (limit launched : ℕ) (hs : List Handle)
    → waiting (launch run limit launched hs) ≡ waiting hs - (limit - launched)
unfolding launch
waiting-launch run leaves limit launched [] = omega arith
waiting-launch run leaves limit launched (h ∷ hs) = ground (
  arith,
  leaves h,
  waiting-launch run leaves limit (launched + 1) hs,
  waiting-launch run leaves limit launched hs,
)

-- Where workers do not leave their handles QUEUED and every tick finds a worker free, every download
-- that waits has been started after as many ticks as downloads wait.
pub waiting-downloader :
    (run : Handle → Handle) (setting : ℕ) (ticks : List ℕ) (hs : List Handle)
    → ((h : Handle) → is_queued (run h).status ≡ false)
    → All (λ active. active < concurrency setting) ticks
    → waiting hs ≤ length ticks
    → waiting (downloader run setting ticks hs) ≡ 0
unfolding downloader
waiting-downloader run setting [] hs leaves free enough = omega arith
waiting-downloader run setting (active ∷ ticks) hs leaves free enough =
    waiting-downloader run setting ticks (launch run (concurrency setting) active hs) leaves free.1
      (omega (arith, free.0, waiting-launch run leaves (concurrency setting) active hs))

-- Handles that come back to the queue each time they are tried, such as those of a peer that is
-- offline, and that stand in front.
module _ (run : Handle → Handle) (returns : Handle → Bool)
    (stays : (h : Handle) → returns h ≡ true → is_queued h.status ≡ true)
    (again : (h : Handle) → returns h ≡ true → returns (run h) ≡ true) where
  -- A tick that finds enough such handles in front goes no further, and leaves them so.
  launch-front :
      (limit launched : ℕ) (front back : List Handle)
      → limit ≤ launched + count_if returns front
      → (front' : List Handle) × (launch run limit launched (front ++ back) ≡ front' ++ back)
        × (count_if returns front ≤ count_if returns front')
        × (length front' ≡ length front)
  unfolding launch
  launch-front limit launched [] [] enough = ([], refl, omega arith, refl)
  launch-front limit launched [] (h ∷ back) enough = ([], ground arith, omega arith, refl)
  launch-front limit launched (h ∷ front) back enough = elim (Bool-cases (leb limit launched)) [
    | inl full ↦ (h ∷ front, rw full, omega arith, refl)
    | inr room ↦ elim (Bool-cases (is_queued h.status)) [
      | inl queued ↦
          let (front', e, c, l) =
            launch-front limit (launched + 1) front back (ground (arith, enough)) in
          (run h ∷ front', rw (room, queued, e), ground (arith, c, again h), ap suc l)
      | inr other ↦
          let (front', e, c, l) =
            launch-front limit launched front back (ground (arith, enough, stays h, other)) in
          (h ∷ front', rw (room, other, e), ground (arith, c), ap suc l)
    ]
  ]

  -- Where at least as many handles as the limit come back to the queue each time, no handle behind
  -- them is ever started, however many ticks pass.
  pub downloader-starves :
      (setting : ℕ) (ticks : List ℕ) (front back : List Handle)
      → concurrency setting ≤ count_if returns front
      → drop (length front) (downloader run setting ticks (front ++ back)) ≡ back
  unfolding downloader
  downloader-starves setting [] front back enough = drop-append front back
  downloader-starves setting (active ∷ ticks) front back enough =
      let (front', e, c, l) =
        launch-front (concurrency setting) active front back (omega (arith, enough)) in
      let rest : drop (length front') (downloader run setting ticks (front' ++ back)) ≡ back =
        downloader-starves setting ticks front' back (omega (arith, enough, c)) in
      rw (e, ← l) rest
