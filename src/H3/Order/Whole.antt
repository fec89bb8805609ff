-- ===== src/H3/Order/Whole.antt =====
-- Every run of an `H3Protocol` (protocol/h3.py) calls its streams in order, and spares those that were
-- reset.
use anycorn.Config.{Config}
