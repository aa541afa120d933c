-- ===== src/App/Main/Tests.antt =====
-- A process that is told to stop by SIGINT.
use aeb_node.Prelude.{List, [], ◌∷◌}
use aeb_node.Prelude.Text.{Text, codes}

abbrev arguments : List Text
arguments = codes "--no-can" ∷ []
