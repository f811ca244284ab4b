-- ===== src/Kubevirt.antt =====
-- The fields of the cluster's objects that the program reads: KubeVirt virtual machines and
-- instances, pods, and what a request to the API server answers. Times are numbers of nanoseconds.
use kubemacpool.Prelude.{ℕ, Bool, Option, text_eq, codes, List, Text, GoMap}

pub record Interface : Type 0 where
  pub name : Text
  pub mac_address : Text
  -- `Masquerade != nil`
  pub masquerade : Bool
  -- The remaining fields.
  pub others : Text

pub record Network : Type 0 where
  pub name : Text
  -- `Multus != nil`
  pub multus : Bool

pub record VirtualMachine : Type 0 where
  pub namespace : Text
  pub name : Text
  pub annotations : GoMap Text
  pub labels : GoMap Text
  pub finalizers : List Text
  pub deletion_timestamp : Option ℕ
  -- `Spec.Template` is not nil
  pub has_template : Bool
  -- `Spec.Template.Spec.Domain.Devices.Interfaces` and `Spec.Template.Spec.Networks`
  pub interfaces : List Interface
  pub networks : List Network
  -- The remaining fields of the specification.
  pub spec_others : Text
  -- The maps and the list of interfaces that are not nil.
  pub has_annotations : Bool
  pub has_labels : Bool
  pub has_interfaces : Bool

-- What a `Get` of the API server gives.
pub data Answer {ℓ} (A : Type ℓ) : Type ℓ where
  found : A → Answer A
  not_found : Answer A
  failed : Answer A

-- An element of the network annotation of a pod; `others` stands for its remaining fields.
pub record NetworkSelection : Type 0 where
  pub name : Text
  pub namespace : Text
  pub mac_request : Text
  pub others : Text

pub record OwnerReference : Type 0 where
  pub kind : Text
  pub name : Text

-- The phases of pods and of machine instances are texts.
unfoldable pub is_running : Text → Bool
is_running phase = text_eq phase (codes "Running")

pub record Pod : Type 0 where
  pub namespace : Text
  pub name : Text
  pub uid : Text
  pub annotations : GoMap Text
  pub labels : GoMap Text
  pub owner_references : List OwnerReference
  pub phase : Text
  -- `Annotations` is not nil
  pub has_annotations : Bool

pub record StatusInterface : Type 0 where
  pub name : Text
  pub mac : Text

-- The migration UIDs of the source state and of the target state, where these are not nil.
pub record MigrationState : Type 0 where
  pub source_state : Option Text
  pub target_state : Option Text

pub record Vmi : Type 0 where
  pub namespace : Text
  pub name : Text
  pub uid : Text
  pub phase : Text
  pub interfaces : List Interface
  pub networks : List Network
  pub status_interfaces : List StatusInterface
  pub migration_state : Option MigrationState
