-- ===== src/Routers/Checked.antt =====
-- What a request has been checked for when it reaches the driver.
use ai_storybook_storage_ser.Base.{Text, Bool, true, member, All, Lacks, ◌≡◌}
use ai_storybook_storage_ser.Settings.{Settings}
use ai_storybook_storage_ser.Errors.{ok, bind-eq-ok}
use ai_storybook_storage_ser.Validation.KeyGrammar.{validate, validate_bucket, validate_key}
use ai_storybook_storage_ser.Validation.KeyGrammar.Grammar.{IsKey, IsBucketName}
use ai_storybook_storage_ser.Validation.KeyGrammar.Accepts.{validate_key_iff, validate_bucket_iff}

-- A bucket and a key that `validate` lets pass are of the grammar.
pub validate-Grammar :
    (settings : Settings) (allow_at : Bool) (bucket key : Text)
    → All (Lacks 10) settings.buckets
    → validate settings allow_at bucket key ≡ ok tt
    → IsBucketName bucket × IsKey allow_at key
unfolding validate
validate-Grammar settings allow_at bucket key clean h =
    let (u, bucket_passed, key_passed) =
      bind-eq-ok (validate_bucket settings bucket) (λ _. validate_key allow_at key) h in
    (
      ((validate_bucket_iff settings bucket clean).0 bucket_passed).0,
      (validate_key_iff allow_at key).0 key_passed,
    )

-- And they are let pass.
pub validate-passes :
    (settings : Settings) (allow_at : Bool) (bucket key : Text)
    → All (Lacks 10) settings.buckets
    → IsBucketName bucket
    → member bucket settings.buckets ≡ true
    → IsKey allow_at key
    → validate settings allow_at bucket key ≡ ok tt
unfolding validate
validate-passes settings allow_at bucket key clean b known k =
    rw (
      (validate_bucket_iff settings bucket clean).1 (b, known),
      (validate_key_iff allow_at key).1 k,
    )

pub validate-member :
    (settings : Settings) (allow_at : Bool) (bucket key : Text)
    → All (Lacks 10) settings.buckets
    → validate settings allow_at bucket key ≡ ok tt
    → member bucket settings.buckets ≡ true
unfolding validate
validate-member settings allow_at bucket key clean h =
    let (u, bucket_passed, _) =
      bind-eq-ok (validate_bucket settings bucket) (λ _. validate_key allow_at key) h in
    ((validate_bucket_iff settings bucket clean).0 bucket_passed).1
