-- ===== src/Build/Headers.antt =====
-- The search for a header, in the directories of CMakeLists.txt.
use monitor_system.Base.{
  ℕ, Bool, true, false, ◌&&◌, ◌==◌, List, [], ◌∷◌, Option, none, some, codes, str_eq, if◌then◌else◌,
}
use monitor_system.Config.{glue}
use monitor_system.Build.{Line}
use monitor_system.Build.CommonHeaders.{color_h, msg_h, common_h, head_h}
use monitor_system.Build.PartHeaders.{
  client_function_h, server_function_h, thread_poll_h, db_connection_pool_h,
}

-- A directory that CMakeLists.txt names, with its headers by the names that they are included by.
pub data Dir : Type 0 where
  common_dir : Dir
  server_dir : Dir
  client_dir : Dir
  pool_dir : Dir
  queue_dir : Dir

abbrev pub headers : Dir → List (List ℕ × List Line)
headers Dir.common_dir =
    (codes "head.h", head_h)
    ∷ (codes "color.h", color_h)
    ∷ (codes "msg.h", msg_h)
    ∷ (codes "common.h", common_h)
    ∷ []
headers Dir.server_dir = (codes "function.h", server_function_h) ∷ []
headers Dir.client_dir = (codes "function.h", client_function_h) ∷ []
headers Dir.pool_dir = (codes "db_connection_pool.h", db_connection_pool_h) ∷ []
headers Dir.queue_dir = (codes "thread_poll.h", thread_poll_h) ∷ []

-- Where a directory is, from the root of the repository: the names on the way, the last one first.
abbrev pub path : Dir → List (List ℕ)
path Dir.common_dir = codes "common" ∷ []
path Dir.server_dir = codes "server" ∷ []
path Dir.client_dir = codes "client" ∷ []
path Dir.pool_dir = codes "db_connection_pool" ∷ codes "server" ∷ []
path Dir.queue_dir = codes "thread_pool" ∷ codes "server" ∷ []

-- The names between the slashes.
abbrev pub parts : List ℕ → List (List ℕ)
parts [] = [] ∷ []
parts (b ∷ s) = let rest = parts s in if b == 47 then [] ∷ rest else glue b rest

-- The directory above; there is none above the root.
abbrev pub up : List (List ℕ) → Option (List (List ℕ))
up [] = none
up (d ∷ ds) = some ds

abbrev pub step_to : List (List ℕ) → List ℕ → Option (List (List ℕ))
step_to place name = if str_eq name (codes "..") then up place else some (name ∷ place)

-- Where the names lead from a place.
abbrev pub follow : Option (List (List ℕ)) → List (List ℕ) → Option (List (List ℕ))
follow none names = none
follow (some place) [] = some place
follow (some place) (name ∷ names) = follow (step_to place name) names

abbrev pub same_path : List (List ℕ) → List (List ℕ) → Bool
same_path [] [] = true
same_path [] (q ∷ qs) = false
same_path (p ∷ ps) [] = false
same_path (p ∷ ps) (q ∷ qs) = str_eq p q && same_path ps qs

-- The header of a directory that stands at a place.
abbrev pub find_in : Dir → List (List ℕ) → List (List ℕ × List Line) → Option (Dir × List Line)
find_in d place [] = none
find_in d place (h ∷ hs) =
    let rest = find_in d place hs in if same_path place (h.0 ∷ path d) then some (d, h.1) else rest

abbrev pub or_next : Option (Dir × List Line) → Option (Dir × List Line) → Option (Dir × List Line)
or_next none next = next
or_next (some r) next = some r

-- The header that stands at a place, in one of the directories.
abbrev pub find_file : List Dir → Option (List (List ℕ)) → Option (Dir × List Line)
find_file ds none = none
find_file [] (some place) = none
find_file (d ∷ ds) (some place) = or_next (find_in d place (headers d)) (find_file ds (some place))

-- The directories of `include_directories`, in order. They are all that have headers.
abbrev pub search_path : List Dir
search_path = Dir.common_dir ∷ Dir.server_dir ∷ Dir.client_dir ∷ Dir.pool_dir ∷ Dir.queue_dir ∷ []

-- The file that a name leads to from the first directory where it leads to one.
abbrev pub search : List Dir → List (List ℕ) → Option (Dir × List Line)
search [] names = none
search (d ∷ ds) names =
    or_next (find_file search_path (follow (some (path d)) names)) (search ds names)

-- `#include "…"`: the directory of the file first, then the search path.
abbrev pub find_header : Dir → List ℕ → Option (Dir × List Line)
find_header d name = search (d ∷ search_path) (parts name)
