-- ===== src/Nodes/Class.antt =====
-- The records and the classes of nodes (pallets/network/src/lib.rs).
use hypertensor_blockchain.Common.{ℕ, Bool, ◌&&◌, Option, leb}

pub data SubnetNodeClass : Type 0 where
  registered idle included validator : SubnetNodeClass

-- the discriminant, which orders the classes
abbrev pub rank : SubnetNodeClass → ℕ
rank SubnetNodeClass.registered = 0
rank SubnetNodeClass.idle = 1
rank SubnetNodeClass.included = 2
rank SubnetNodeClass.validator = 3

-- `SubnetNodeClass::next`
unfoldable pub next : SubnetNodeClass → SubnetNodeClass
next SubnetNodeClass.registered = SubnetNodeClass.idle
next SubnetNodeClass.idle = SubnetNodeClass.included
next SubnetNodeClass.included = SubnetNodeClass.validator
next SubnetNodeClass.validator = SubnetNodeClass.validator

pub record SubnetNodeClassification : Type 0 where
  pub node_class : SubnetNodeClass
  pub start_epoch : ℕ

pub record PeerInfo : Type 0 where
  pub peer_id : ℕ
  pub multiaddr : Option ℕ

pub record SubnetNode : Type 0 where
  pub id : ℕ
  pub validator_id : ℕ
  pub peer_info : PeerInfo
  pub bootnode_peer_info : Option PeerInfo
  pub client_peer_info : Option PeerInfo
  pub classification : SubnetNodeClassification
  pub unique : Option ℕ
  pub non_unique : Option ℕ

unfoldable pub has_classification : SubnetNodeClass → ℕ → SubnetNode → Bool
has_classification required subnet_epoch n =
    leb (rank required) (rank n.classification.node_class)
    && leb n.classification.start_epoch subnet_epoch

-- A validator's reputation, with `score` in units of 1e-18
pub record Reputation : Type 0 where
  pub start_epoch : ℕ
  pub score : ℕ
  pub lifetime_node_count : ℕ
  pub total_active_nodes : ℕ
  pub total_increases : ℕ
  pub total_decreases : ℕ
  pub average_attestation : ℕ
  pub last_validator_epoch : ℕ
  pub ow_score : ℕ
