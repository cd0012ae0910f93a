-- ===== src/Staff/Approval/Offers.antt =====
-- The two lists of the queue and the decisions that their buttons offer
-- (staff-portal/src/app/deletion-requests/page.tsx).
use the_eye.Base.{
  Bool-cases, inl, inr, ℕ, ◌+◌, ◌-◌, ◌*◌, ◌/◌, Bool, true, false, not, none, some, List, [], ◌∷◌,
  ◌++◌, String, ◌⧺◌, ◌==◌, ◌≡◌, refl, arith, filter, all, length, length-append, ltb, if◌then◌else◌,
}
use the_eye.Query.Decimal.{decimal}
use the_eye.Staff.Api.Tenants.{DeletionQueueItem}
use the_eye.Staff.Approval.{ModalMode, approve, reject, execute, QueuePage}

-- i.scheduled_deletion_at, as a condition
abbrev pub is_scheduled : DeletionQueueItem → Bool
is_scheduled item = elim item.scheduled_deletion_at [ none ↦ false | some t ↦ not (t == "") ]

abbrev pub scheduled : List DeletionQueueItem → List DeletionQueueItem
scheduled queue = filter is_scheduled queue

abbrev pub pending : List DeletionQueueItem → List DeletionQueueItem
pending queue = filter (λ i. not (is_scheduled i)) queue

-- setModal({ item, mode })
abbrev pub open_modal : DeletionQueueItem → ModalMode → QueuePage → QueuePage
open_modal item mode page = record page { modal = some (item, mode) }

abbrev pub close_modal : QueuePage → QueuePage
close_modal page = record page { modal = none }

abbrev scheduled_offers : List DeletionQueueItem → List (DeletionQueueItem × ModalMode)
scheduled_offers [] = []
scheduled_offers (i ∷ is) = (i, reject) ∷ (i, execute) ∷ scheduled_offers is

abbrev pending_offers : List DeletionQueueItem → List (DeletionQueueItem × ModalMode)
pending_offers [] = []
pending_offers (i ∷ is) = (i, reject) ∷ (i, approve) ∷ pending_offers is

-- The buttons of the page, in the order in which they stand.
unfoldable pub offers : List DeletionQueueItem → List (DeletionQueueItem × ModalMode)
offers queue = scheduled_offers (scheduled queue) ++ pending_offers (pending queue)

unfoldable pub users_affected : List DeletionQueueItem → ℕ
users_affected [] = 0
users_affected (i ∷ is) = i.user_count + users_affected is

-- timeAgo, from the time now and the time given, in milliseconds
unfoldable pub queue_time_ago : ℕ → ℕ → String
queue_time_ago now t =
    let h = (now - t) / 3600000 in
    if ltb h 1
    then "Just now"
    else if ltb h 24
    then decimal h ⧺ "h ago"
    else decimal (h / 24) ⧺ "d ago"

-- An approval is for an item that is not scheduled, an execution for one that is.
abbrev pub fits : DeletionQueueItem × ModalMode → Bool
fits (i, approve) = not (is_scheduled i)
fits (i, reject) = true
fits (i, execute) = is_scheduled i

all-append :
    {A : Type 0} (p : A → Bool) (xs ys : List A)
    → all p xs ≡ true
    → all p ys ≡ true
    → all p (xs ++ ys) ≡ true
all-append p [] ys h k = k
all-append p (x ∷ xs) ys h k = ground (arith, h, all-append p xs ys (ground (arith, h)) k)

scheduled_offers_lem :
    (queue : List DeletionQueueItem) → all fits (scheduled_offers (scheduled queue)) ≡ true
scheduled_offers_lem [] = refl
scheduled_offers_lem (i ∷ is) = ground (arith, scheduled_offers_lem is)

pending_offers_lem :
    (queue : List DeletionQueueItem) → all fits (pending_offers (pending queue)) ≡ true
pending_offers_lem [] = refl
pending_offers_lem (i ∷ is) = ground (arith, pending_offers_lem is)

length-scheduled_offers :
    (is : List DeletionQueueItem) → length (scheduled_offers is) ≡ 2 * length is
length-scheduled_offers [] = refl
length-scheduled_offers (i ∷ is) = omega (arith, length-scheduled_offers is)

length-pending_offers : (is : List DeletionQueueItem) → length (pending_offers is) ≡ 2 * length is
length-pending_offers [] = refl
length-pending_offers (i ∷ is) = omega (arith, length-pending_offers is)

length-scheduled :
    (queue : List DeletionQueueItem)
    → length (scheduled queue) + length (pending queue) ≡ length queue
length-scheduled [] = refl
length-scheduled (i ∷ is) = elim (Bool-cases (is_scheduled i)) [
  | inl e ↦ rw e (omega (arith, length-scheduled is))
  | inr e ↦ rw e (omega (arith, length-scheduled is))
]

-- For every queue: a button that executes a deletion stands only with an item that is scheduled, one
-- that approves only with an item that is not, and there are two buttons for each item.
pub offers_lem :
    (queue : List DeletionQueueItem)
    → (all fits (offers queue) ≡ true) × (length (offers queue) ≡ 2 * length queue)
unfolding offers
offers_lem queue = (
  all-append fits (scheduled_offers (scheduled queue)) (pending_offers (pending queue))
      (scheduled_offers_lem queue) (pending_offers_lem queue),
  omega (
    arith,
    length-append (scheduled_offers (scheduled queue)) (pending_offers (pending queue)),
    length-scheduled_offers (scheduled queue),
    length-pending_offers (pending queue),
    length-scheduled queue,
  ),
)
