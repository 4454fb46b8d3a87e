-- ===== src/Auth/Bearer.antt =====
-- The token on its way through the authorization metadata.
use job_stream.Base.{◌≡◌, refl, inl, inr, some, List, [], ◌∷◌, ◌++◌, Text, codes, ok, Bool-cases}
use job_stream.Strings.{has_prefix, trim_prefix}
use job_stream.Strings.Prefix.{has_prefix-append, has_prefix_sound, trim_prefix-append}
use job_stream.Rpc.{Context}
use job_stream.Auth.{prefix, bearer_in, bearer_of, bearer_from_metadata}

-- The context of a call that was sent with this authorization.
pub record IsSentWith (value : Text) (ctx : Context) : Type 0 where
  pub md : Text → List Text
  pub metadata : ctx.metadata ≡ some md
  pub authorization : md (codes "authorization") ≡ value ∷ []

-- The server finds the token that a client put after the scheme.
pub bearer_from_metadata-sent :
    (raw : Text) (ctx : Context)
    → IsSentWith (prefix ++ raw) ctx
    → bearer_from_metadata ctx ≡ ok raw
unfolding bearer_from_metadata bearer_in bearer_of
bearer_from_metadata-sent raw ctx sent =
    rw
      (
        sent.metadata,
        sent.authorization,
        has_prefix-append prefix raw,
        trim_prefix-append prefix raw,
      )
      refl

-- And it finds no other token than the one that was sent.
pub bearer_from_metadata_sound :
    (authorization raw : Text) (ctx : Context)
    → IsSentWith authorization ctx
    → bearer_from_metadata ctx ≡ ok raw
    → authorization ≡ prefix ++ raw
unfolding bearer_from_metadata bearer_in bearer_of
bearer_from_metadata_sound authorization raw ctx sent found =
    elim (Bool-cases (has_prefix authorization prefix)) [
      | inl bearer ↦
          let rest : trim_prefix authorization prefix ≡ raw =
            cc (rw (sent.metadata, sent.authorization, bearer) at found) in
          rw (← rest) (has_prefix_sound authorization prefix bearer)
      | inr other ↦ cc (rw (sent.metadata, sent.authorization, other) at found)
    ]
