-- ===== src/Buddies/Reactions.antt =====
-- Every handler of buddies answers, and keeps the sizes.
use open_fusion.Buddies.Handlers.{is_unreachable}
use open_fusion.Buddies.Handlers.{is_unreachable}
