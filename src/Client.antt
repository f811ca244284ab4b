-- ===== src/Client.antt =====
-- The client of the cluster: what pkg/pool-manager and the controllers ask of it. Its answers are
-- those of the API server, so they are fields of a record that the operations take.
use kubemacpool.Prelude.{Bool, Option, List, Text, GoMap}
use kubemacpool.Kubevirt.{VirtualMachine, Pod, Answer}

pub record Requirement : Type 0 where
  pub key : Text
  pub operator : Text
  pub values : List Text

pub record LabelSelector : Type 0 where
  pub match_expressions : List Requirement
  pub match_labels : GoMap Text

pub record Webhook : Type 0 where
  pub name : Text
  pub namespace_selector : Option LabelSelector

-- `labels` is `none` where the map of the labels is nil.
pub record Namespace : Type 0 where
  pub name : Text
  pub labels : Option (GoMap Text)

-- One page of a list: its items, and the token of the next page, which the last page leaves empty.
pub record Page {ℓ} (A : Type ℓ) : Type ℓ where
  pub items : List A
  pub continue : Text

pub record Client : Type 0 where
  -- The webhooks of the mutating webhook configuration; `none` is an error.
  pub webhooks : Option (List Webhook)
  pub get_namespace : Text → Option Namespace
  pub get_vm : Text → Text → Answer VirtualMachine
  pub get_pod : Text → Text → Answer Pod
  -- The lists by the token of the page.
  pub list_namespaces : Text → Option (Page Namespace)
  pub list_vms : Text → Option (Page VirtualMachine)
  pub list_pods : Text → Option (Page Pod)
  -- Whether a selector matches labels; `none` where the selector does not convert.
  pub selects : LabelSelector → GoMap Text → Option Bool
