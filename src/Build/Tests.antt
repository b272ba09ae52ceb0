-- ===== src/Build/Tests.antt =====
-- The two programs, and the types that differ.
use monitor_system.Base.{
  ℕ, suc, ◌≡◌, refl, true, false, Bool, List, [], ◌∷◌, ◌+◌, Option, none, some, codes, not, length,
  if◌then◌else◌,
}
use monitor_system.Build.{Ty, Pre, include, Placed, preprocess, one_line, brings}
use monitor_system.Build.Headers.{Dir, find_header}
use monitor_system.Build.CommonHeaders.{common_h}
use monitor_system.Build.Sources.{Program, sources}
use monitor_system.Build.Once.{included_once}
use monitor_system.Build.Types.{same_ty}
use monitor_system.Build.Link.{start, declarations, joined, externs, variables, look_for}

abbrev other_type : Option Ty → Ty → Bool
other_type none t = true
other_type (some s) t = not (same_ty s t)

-- The variables that are declared by a type that is not the one of their definition.
abbrev clashes : List (List ℕ × Ty) → List (List ℕ × Ty) → List (List ℕ)
clashes defined [] = []
clashes defined (v ∷ vs) =
    let rest = clashes defined vs in
    if other_type (look_for v.0 defined) v.1 then v.0 ∷ rest else rest

client_clashes :
    clashes
      (variables (joined false (sources Program.client_program)))
      (externs (joined false (sources Program.client_program)))
    ≡ codes "mem_persistence"
      ∷ codes "cpu_persistence"
      ∷ codes "disk_persistence"
      ∷ codes "sys_persistence"
      ∷ codes "mem_persistence"
      ∷ codes "cpu_persistence"
      ∷ codes "disk_persistence"
      ∷ codes "sys_persistence"
      ∷ []
unfolding preprocess one_line brings
client_clashes = refl

server_clashes :
    clashes
      (variables (joined false (sources Program.server_program)))
      (externs (joined false (sources Program.server_program)))
    ≡ []
unfolding preprocess one_line brings
server_clashes = refl

-- client.cpp includes common.h itself, after head.h has included it.
abbrev from_head : Placed Dir
from_head = record { file = Dir.common_dir; line = include (codes "common.h") }

abbrev from_client : Placed Dir
from_client = record { file = Dir.client_dir; line = include (codes "common.h") }

abbrev common_read : Pre
common_read = record {
  macros = (codes "_COMMON_H", []) ∷ [];
  branches = [];
  out = declarations (preprocess find_header 20 (start false) (from_head ∷ []));
}

included_once_example :
    preprocess find_header (suc (length common_h + 2)) common_read (from_client ∷ [])
    ≡ preprocess find_header 2 common_read []
unfolding preprocess one_line brings
included_once_example =
    included_once 20 2 (start false) common_read Dir.common_dir Dir.client_dir (codes "common.h")
      (codes "common.h") (Dir.common_dir, common_h) [] [] refl refl refl refl refl
