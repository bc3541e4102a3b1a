-- ===== src/Auth/Samples.antt =====
-- A small outside for the tests: a cache in memory, a response and a queue that forget, a digest that
-- keeps the first character, and a cipher that keeps its text.
use terab.Base.{ℕ, Option, none, some, [], ◌∷◌, ◌==◌, Text, text_eq, if◌then◌else◌}
use terab.ErrorCode.{failure}
use terab.Action.{ok}
use terab.Auth.Schema.{TokenConfig}
use terab.Auth.Outside.{Outside, AccountConfig, OtpConfig}

-- The failures of each user.
abbrev pub Memory : Type 0
Memory = ℕ → Option ℕ

abbrev pub first_char : Text → ℕ
first_char [] = 0
first_char (c ∷ s) = c

abbrev pub sample_tokens : TokenConfig
sample_tokens = record { hash_token = first_char; refresh_exp_ms = 1000 }

abbrev pub sample_config : AccountConfig
sample_config = record {
  tokens = sample_tokens;
  access_exp_ms = 60000;
  pepper_password = λ t. t;
  hash = λ salt t. first_char t;
  compare = λ t h. first_char t == h;
  rejects_with = failure;
  sign = λ user name permissions seconds now. user ∷ now ∷ [];
}

abbrev pub sample_otp : OtpConfig
sample_otp = record {
  verify_otp = λ code secret now. text_eq code secret;
  generate_uri = λ label issuer secret. label;
  encrypt = λ iv t. record { ciphertext = t; iv = iv; auth_tag = [] };
  decrypt = λ e. some e.ciphertext;
}

abbrev pub memory : Outside Memory
memory = record {
  set_cookie = λ c raw age x. x;
  clear_cookie = λ c x. x;
  get_failures = λ user x. x user;
  set_failures = λ user n ttl x u. if u == user then some n else x u;
  delete_failures = λ user x u. if u == user then none else x u;
  add_job = λ job x. (ok tt, x);
}
