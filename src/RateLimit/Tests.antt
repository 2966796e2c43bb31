-- ===== src/RateLimit/Tests.antt =====
-- Runs of the rate limiter, and its theorems at concrete inputs.
use messenger_web_app.Prelude.{◌*◌, ◌≤◌, ◌<◌, ◌≡◌, refl, true, List, [], ◌∷◌, arith, count, nat_eq}
use messenger_web_app.Prelude.Int.{pos, pos_part}
use messenger_web_app.RateLimit.{
  Limiter, new_limiter, is_allowed, oldest_of, retry_after, clean, cleanup,
}
use messenger_web_app.RateLimit.Window.{Event, hit, sweep, accepted, in_window, accepted-window}
use messenger_web_app.RateLimit.Retry.{after, refused-retry_after}

abbrev two_per_second : Limiter
two_per_second = new_limiter 2 1

abbrev history : List Event
history = hit 100 7 ∷ hit 200 7 ∷ hit 300 7 ∷ sweep 400 ∷ hit 1150 7 ∷ []

third_is_refused : accepted two_per_second 7 [] history ≡ 1150 ∷ 200 ∷ 100 ∷ []
unfolding accepted is_allowed cleanup clean
third_is_refused = refl

wait_is_reported :
    retry_after (is_allowed (after two_per_second (hit 100 7 ∷ hit 200 7 ∷ [])) 300 7).1 300 7
    ≡ pos 1
unfolding after is_allowed retry_after oldest_of
wait_is_reported = refl

accepted-window_example :
    count (in_window 150 (1 * 1000)) (accepted (new_limiter 2 1) 7 [] history) ≤ 2
accepted-window_example = accepted-window 2 1 7 150 history (omega arith)

refused-retry_after_example :
    (0
      < pos_part
          (retry_after (is_allowed (after (new_limiter 1 1) (hit 100 7 ∷ [])) 300 7).1 300 7))
    × ((is_allowed (is_allowed (after (new_limiter 1 1) (hit 100 7 ∷ [])) 300 7).1 1300 7).0 ≡ true)
unfolding after is_allowed retry_after oldest_of
refused-retry_after_example =
    refused-retry_after 1 1 300 1300 7 (hit 100 7 ∷ []) (omega arith) refl (omega arith)
