-- ===== src/Tests/HttpRuns.antt =====
-- Requests over a network whose first attempt fails, and over one that answers.
use drnavigator.Common.{◌⊎◌, ◌↔◌, ℕ, suc, true, ◌≡◌, refl, none, some, ok, if◌then◌else◌, decimal}
use drnavigator.Common.Num.{◌==◌}
use drnavigator.Http.{
  Request, Answer, HttpClient, Decoder, Reply, get_request, conclude, do_get_request,
  do_post_request,
}
use drnavigator.Http.Retry.{IsLast, answer_at, world_after}
use drnavigator.Http.Replies.{IsDecoded, do_get_request-answer_at, do_get_request-IsDecoded}
use drnavigator.Tests.Fixtures.{network}

test_decimal : decimal 503 ≡ "503"
unfolding decimal
test_decimal = refl

-- Attempt number 0 fails.
abbrev flaky : HttpClient ℕ
flaky = record {
  check_url = λ url. none;
  do_request = λ req w. (
    if w == 0
        then record { response = none; error = some "refused" }
        else record { response = some (record { status_code = 200; body = ok "7" }); error = none },
    suc w,
  );
}

abbrev decode : Decoder ℕ
decode text old = record { object = 7; error = none }

test_second_attempt :
    do_get_request flaky decode "u" "t" true 3 0 0
    ≡ (record { code = 200; error = none; object = 7 }, 2)
unfolding do_get_request conclude drnavigator.Http.attempts
test_second_attempt = refl

abbrev teapot : HttpClient ℕ
teapot = record {
  check_url = λ url. none;
  do_request = λ req w. (
    record { response = some (record { status_code = 418; body = ok "no" }); error = none },
    suc w,
  );
}

test_unexpected :
    (do_get_request teapot decode "u" "t" true 3 0 0).0.error
    ≡ some "unexpected status code 418, response: no"
unfolding do_get_request conclude drnavigator.Http.attempts decimal
test_unexpected = refl

do_get_request-answer_at_example :
    ((◌≡◌ {A = ℕ} 3 0)
      × (do_get_request flaky decode "u" "t" true 3 0 0
          ≡ (record { code = 0; error = none; object = 0 }, 0)))
    ⊎ ((k : ℕ) × IsLast flaky (get_request "u" "t" true) 3 k 0
        × (do_get_request flaky decode "u" "t" true 3 0 0 ≡ (
          conclude decode 0 (answer_at flaky (get_request "u" "t" true) k 0),
          world_after flaky (get_request "u" "t" true) (suc k) 0,
        )))
do_get_request-answer_at_example = do_get_request-answer_at flaky decode "u" "t" true 3 0 0 refl

do_get_request-IsDecoded_example :
    ((do_get_request network decode "u" "t" true 3 0 0).0.error ≡ none) ↔ (
      (network.check_url "u" ≡ none)
      × IsDecoded network decode
          (get_request "u" "t" true)
          3
          0
          0
          (do_get_request network decode "u" "t" true 3 0 0).0)
do_get_request-IsDecoded_example =
    do_get_request-IsDecoded network decode (λ req w e silent. cc) "u" "t" true 2 0 0
