-- ===== src/Friends.antt =====
-- server/src/friends/friends.service.ts: requests and friendships. The table of friendships is
-- reached through the database client `db`; `registered` says whether `user.findUnique` finds the
-- user of an id. The lists for the screens and the search are not modelled.
pub mod Pairs
pub mod Validity
pub mod Consent
mod Tests
use messenger_web_app.Prelude.{
  ℕ, ◌≡◌, Bool, true, false, not, ◌&&◌, ◌||◌, Option, none, some, List, [], ◌∷◌, map, ◌==◌, nat_eq,
  if◌then◌else◌, filter, is_some, Error, bad_request, forbidden, not_found, conflict, Result, ok,
  err, Action, pure, throw, gets, or_throw, ◌>>=◌, ◌>>◌, throw_if, modify,
}
use messenger_web_app.Prelude.Store.{Table}

-- The states of a friendship.
pub data Status : Type 0 where
  pending accepted declined blocked : Status

pub record Friendship : Type 0 where
  pub id : ℕ
  pub sender_id : ℕ
  pub receiver_id : ℕ
  pub status : Status

-- What the receiver answers.
pub data Answer : Type 0 where
  accept decline : Answer

abbrev pub answered : Answer → Status
answered accept = accepted
answered decline = declined

abbrev pub is_pending : Status → Bool
is_pending pending = true
is_pending _ = false

abbrev pub is_accepted : Status → Bool
is_accepted accepted = true
is_accepted _ = false

-- The `OR` of the two directions.
abbrev pub between : ℕ → ℕ → Friendship → Bool
between a b f = (f.sender_id == a && f.receiver_id == b) || (f.sender_id == b && f.receiver_id == a)

abbrev pub is_friendship : ℕ → ℕ → Friendship → Bool
is_friendship a b f = is_accepted f.status && between a b f

abbrev pub has_id : ℕ → Friendship → Bool
has_id id f = f.id == id

abbrev pub new_request : ℕ → ℕ → ℕ → Friendship
new_request sender receiver id = record {
  id = id;
  sender_id = sender;
  receiver_id = receiver;
  status = pending;
}

abbrev pub with_status : Status → Friendship → Friendship
with_status status f = record f { status = status }

-- The calls that change the table.
pub data Call : Type 0 where
  sends : ℕ → ℕ → Call
  responds : ℕ → ℕ → Answer → Call
  cancels removes : ℕ → ℕ → Call

module _ {S : Type 0} (db : Table Friendship S) (registered : ℕ → Bool) where
  -- The tests on the status of the row that is there already.
  pub clear_way : Status → ℕ → Action S (Unit {0})
  clear_way accepted id = throw (conflict "Already friends")
  clear_way pending id = throw (conflict "Request already pending")
  clear_way blocked id = throw (forbidden "Cannot send request")
  clear_way declined id = modify (db.delete_where (has_id id))

  pub settle_existing : Option Friendship → Action S (Unit {0})
  settle_existing none = pure tt
  settle_existing (some f) = clear_way f.status f.id

  pub create_request : ℕ → ℕ → Action S Friendship
  create_request sender receiver = do
    created ← gets (λ s. new_request sender receiver (db.next_id s))
    modify (db.create (new_request sender receiver))
    pure created

  pub send_request : ℕ → ℕ → Action S Friendship
  unfolding settle_existing
  send_request sender receiver = do
    throw_if (sender == receiver) (bad_request "Cannot send request to yourself")
    throw_if (not (registered receiver)) (not_found "User not found")
    existing ← gets (db.find_first (between sender receiver))
    settle_existing existing
    create_request sender receiver

  pub respond : ℕ → ℕ → Answer → Action S Friendship
  respond user id action = do
    f ← or_throw (← gets (db.find_first (has_id id))) (not_found "Request not found")
    throw_if (not (f.receiver_id == user)) (forbidden "Not your request")
    throw_if (not (is_pending f.status)) (bad_request "Already responded")
    modify (db.update_where (has_id id) (with_status (answered action)))
    pure (with_status (answered action) f)

  pub cancel_request : ℕ → ℕ → Action S (Unit {0})
  cancel_request user id = do
    f ← or_throw (← gets (db.find_first (has_id id))) (not_found "Request not found")
    throw_if (not (f.sender_id == user)) (forbidden "Not your request")
    throw_if (not (is_pending f.status)) (bad_request "Already responded")
    modify (db.delete_where (has_id id))

  pub remove_friend : ℕ → ℕ → Action S (Unit {0})
  remove_friend user friend = do
    f ←
        or_throw (← gets (db.find_first (is_friendship user friend)))
          (not_found "Friendship not found")
    modify (db.delete_where (has_id f.id))

  pub are_friends : ℕ → ℕ → S → Bool
  are_friends a b s = is_some (db.find_first (is_friendship a b) s)

  -- The state after a call, whether it throws or not.
  pub step : Call → S → S
  step (sends a b) s = (send_request a b s).1
  step (responds user id action) s = (respond user id action s).1
  step (cancels user id) s = (cancel_request user id s).1
  step (removes user friend) s = (remove_friend user friend s).1
