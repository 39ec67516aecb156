-- ===== src/WorldIdentity.antt =====
-- crates/world-identity-core/src/lib.rs: references to worlds with and without an incarnation, their
-- labels and wire forms. How an identifier is displayed is a parameter.
use world_infra.Prelude.{◌++◌}
use world_infra.Text.{Text, codes}

pub record NoIncarnation : Type 0 where

pub record IncarnationId {ℓ} (I : Type ℓ) : Type ℓ where
  pub id : I

pub record WorldRef {ℓ κ} (W : Type ℓ) (I : Type κ) : Type (ℓ ⊔ κ) where
  pub world_id : W
  pub incarnation : I

pub record NoIncarnationWorldWire : Type 0 where
  pub world_id : Text
  pub incarnation : Text

pub record IncarnatedWorldWire : Type 0 where
  pub world_id : Text
  pub world_instance_id : Text

module _ {ℓ} {W : Type ℓ} (display : W → Text) where
  unfoldable pub no_incarnation_label : WorldRef W NoIncarnation → Text
  no_incarnation_label world = codes "world:" ++ display world.world_id

  -- `NoIncarnationWorldWire::from_world_ref`
  unfoldable pub no_incarnation_wire : WorldRef W NoIncarnation → NoIncarnationWorldWire
  no_incarnation_wire world = record {
    world_id = display world.world_id;
    incarnation = codes "none";
  }

module _ {ℓ κ} {W : Type ℓ} {I : Type κ} (display : W → Text) (display_incarnation : I → Text) where
  unfoldable pub incarnation_label : WorldRef W (IncarnationId I) → Text
  incarnation_label world =
      codes "world:"
      ++ (display world.world_id
          ++ (codes ":incarnation:" ++ display_incarnation world.incarnation.id))

  -- `IncarnatedWorldWire::from_world_ref`
  unfoldable pub incarnated_wire : WorldRef W (IncarnationId I) → IncarnatedWorldWire
  incarnated_wire world = record {
    world_id = display world.world_id;
    world_instance_id = display_incarnation world.incarnation.id;
  }
