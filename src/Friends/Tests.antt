-- ===== src/Friends/Tests.antt =====
-- Runs of the friends service over a listed table, and its theorems at concrete inputs.
use messenger_web_app.Prelude.{ℕ, ◌≡◌, refl, Bool, true, List, [], ◌∷◌, arith, err, conflict}
use messenger_web_app.Prelude.Store.Listed.{listed}
use messenger_web_app.Friends.{
  Friendship, pending, accepted, accept, sends, responds, send_request, respond, are_friends,
  clear_way, step,
}
use messenger_web_app.Friends.Validity.{IsValid, step-IsValid}
use messenger_web_app.Friends.Consent.{IsConsent, step-IsConsent}

abbrev everybody : ℕ → Bool
everybody _ = true

-- User 1 has asked user 2; users 3 and 4 are friends.
abbrev sample : List Friendship × ℕ
sample = (
  record { id = 1; sender_id = 1; receiver_id = 2; status = pending }
      ∷ record { id = 2; sender_id = 4; receiver_id = 3; status = accepted }
      ∷ [],
  3,
)

sample-IsValid : IsValid listed sample
sample-IsValid = record { keyed = omega arith; alone = ground arith }

asking_back_fails :
    send_request listed everybody 2 1 sample ≡ (err (conflict "Request already pending"), sample)
unfolding send_request clear_way
asking_back_fails = refl

step-IsValid_example : IsValid listed (step listed everybody (sends 1 4) sample)
step-IsValid_example = step-IsValid listed everybody (sends 1 4) sample sample-IsValid

step-IsConsent_example : IsConsent listed everybody 2 1 sample (responds 2 1 accept)
unfolding step respond are_friends
step-IsConsent_example =
    step-IsConsent listed everybody 2 1 (responds 2 1 accept) sample sample-IsValid refl refl
