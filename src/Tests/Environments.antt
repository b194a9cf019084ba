-- ===== src/Tests/Environments.antt =====
-- The theorem on the broker's environment at a concrete input.
use dot1xcp.Base.{◌≡◌, some, List, [], ◌∷◌, arith, Bytes, codes}
use dot1xcp.Environment.{child_environment}
use dot1xcp.Environment.Entries.{block, child_environment-block}

abbrev variables : List Bytes
variables = codes "A=1" ∷ codes "cp_Pipe=old" ∷ codes "B=2" ∷ []

child_environment-block_example :
    child_environment (some (block variables)) (codes "p")
    ≡ some (block (codes "A=1" ∷ codes "B=2" ∷ codes "CP_PIPE=p" ∷ []))
child_environment-block_example = child_environment-block variables (codes "p") (ground arith)
