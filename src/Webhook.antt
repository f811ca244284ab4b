-- ===== src/Webhook.antt =====
-- What the webhooks of pkg/webhook answer: a response with the operations of a JSON patch. Children:
-- VirtualMachine and Pod (the two handlers).
pub mod VirtualMachines
pub mod Pods
use kubemacpool.Prelude.{
  ℕ, zero, suc, ◌+◌, ◌-◌, ◌*◌, ◌<◌, ◌≤◌, ◌≡◌, ◌≢◌, ◌⊎◌, ◌↔◌, inl, inr, refl, sym, ap, ◌∙◌, subst,
  Bool, true, false, not, ◌&&◌, ◌||◌, Option, none, some, List, [], ◌∷◌, ◌++◌, Text, codes, text_eq,
  text_eq_iff, text_eq_refl, GoMap, lookup, insert, delete, has_key, get_or_zero, IsMap, length,
  any_of, keep_if, All, arith, if◌then◌else◌, ◌==◌, Bool-cases, Option-cases, Result-cases,
  if_intro, if_split, Result, ok, err, Error, ◌>>=◌, ◌>>◌,
}

pub data Json : Type 0 where
  string : Text → Json
  strings : GoMap Text → Json

pub record Operation : Type 0 where
  pub operation : Text
  pub path : Text
  pub value : Json

-- `admission.Errored` with its status code, `admission.Allowed` with a message, and a response
-- that is allowed with patches; it names the type of the patches where there are any.
pub data Response : Type 0 where
  errored : ℕ → Error → Response
  ignored : Response
  patched : List Operation → Response

-- The part of an admission request that the handlers read; `object` is `none` where the decoder
-- fails.
pub data Verb : Type 0 where
  create update other_verb : Verb

pub record Request {ℓ} (A : Type ℓ) : Type ℓ where
  pub verb : Verb
  pub namespace : Text
  -- `DryRun` is not nil and true.
  pub dry_run : Bool
  pub object : Option A
