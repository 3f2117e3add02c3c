-- ===== src/Notifications/SmsRetry.antt =====
-- How long a message to the Eskiz gateway goes on.
use ishly_back.Prelude.{ℕ, zero, suc, ◌+◌, ◌<◌, ◌≡◌, refl, sym, ap, ◌∙◌, String, none, some, arith}
use ishly_back.Notifications.Sms.{Answer, answered, unauthorized, Eskiz, try_send, send_sms}

-- the answer to the try `n`, of a provider that has no token
abbrev pub answer_at : Eskiz → String → String → ℕ → Answer
answer_at eskiz phone message n = (try_send eskiz n none phone message).0

later : (try i : ℕ) → try + 1 + i ≡ try + suc i
later try i = omega arith

-- A provider without a token that gets a 401 to its first `n` tries, and whose next try is answered,
-- sends the message with that answer as its id, if the interpreter allows more than `n` nested calls.
pub send_sms_sent :
    (eskiz : Eskiz) (n depth try : ℕ) (phone message id : String)
    → n < depth
    → ((i : ℕ) → i < n → answer_at eskiz phone message (try + i) ≡ unauthorized)
    → answer_at eskiz phone message (try + n) ≡ answered id
    → (send_sms eskiz depth try none phone message).0 ≡ some id
unfolding send_sms
send_sms_sent eskiz n zero try phone message id small refused sent = absurd (omega arith)
send_sms_sent eskiz zero (suc depth) try phone message id small refused sent =
    let e : try + 0 ≡ try = omega arith in
    let now : answer_at eskiz phone message try ≡ answered id =
      sym (ap (answer_at eskiz phone message) e) ∙ sent in
    ground (arith, now)
send_sms_sent eskiz (suc n) (suc depth) try phone message id small refused sent =
    let e : try + 0 ≡ try = omega arith in
    let first : answer_at eskiz phone message try ≡ unauthorized =
      sym (ap (answer_at eskiz phone message) e) ∙ refused 0 (omega arith) in
    let rest =
      send_sms_sent eskiz n depth (try + 1) phone message id (omega arith)
        (λ i h. ap (answer_at eskiz phone message) (later try i) ∙ refused (suc i) (omega arith))
        (ap (answer_at eskiz phone message) (later try n) ∙ sent) in
    ground (arith, first, rest)

-- A provider that only gets 401s uses up all nested calls, however many there may be, and ends with an
-- exception.
pub send_sms_refused :
    (eskiz : Eskiz) (depth try : ℕ) (phone message : String)
    → ((i : ℕ) → answer_at eskiz phone message i ≡ unauthorized)
    → (send_sms eskiz depth try none phone message).0 ≡ none
unfolding send_sms
send_sms_refused eskiz zero try phone message refused = refl
send_sms_refused eskiz (suc depth) try phone message refused =
    ground (arith, refused try, send_sms_refused eskiz depth (try + 1) phone message refused)
