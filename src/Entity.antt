-- ===== src/Entity.antt =====
-- EntityRef.hpp: what refers to an entity, a socket or an id with the kind of the entity.
use open_fusion.Common.{ℕ, Bool, ◌&&◌, ◌==◌}

-- EntityKind
pub data EntityKind : Type 0 where
  invalid player simple_npc combat_npc mob egg bus : EntityKind

abbrev pub kind_number : EntityKind → ℕ
kind_number invalid = 0
kind_number player = 1
kind_number simple_npc = 2
kind_number combat_npc = 3
kind_number mob = 4
kind_number egg = 5
kind_number bus = 6

-- EntityRef; the key is the socket of a player, or the id.
pub record EntityRef : Type 0 where
  pub kind : EntityKind
  pub key : ℕ

-- The operator== of EntityRef.
abbrev pub same_entity : EntityRef → EntityRef → Bool
same_entity a b = kind_number a.kind == kind_number b.kind && a.key == b.key
