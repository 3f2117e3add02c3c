-- ===== src/Examples/Texts.antt =====
-- Runs of the tasks of accounts.
use ishly_back.Prelude.{ltb, if◌then◌else◌}
use ishly_back.Notifications.Sms.{Eskiz, Answer, SmsProvider}
use ishly_back.Accounts.Tasks.{SmsTask}

-- A gateway that fails before its third request
abbrev flaky : Eskiz
flaky = record {
  login = λ try. if ltb try 2 then Answer.failed else Answer.answered "token";
  post = λ try token phone message. Answer.answered "id7";
}

abbrev otp_task : SmsTask
otp_task = record {
  provider = SmsProvider.eskiz_sms flaky;
  depth = 900;
  first_try = λ retries. retries;
  phone_number = "+998901234567";
  code = "123456";
}
