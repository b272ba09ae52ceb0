-- ===== src/Build/Programs.antt =====
-- The two programs, from their sources.
use monitor_system.Base.{ℕ, ◌+◌, ◌≡◌, Bool, false, some, All}
use monitor_system.Build.{Pre, preprocess}
use monitor_system.Build.Headers.{find_header}
use monitor_system.Build.Sources.{source_lines, Program, sources}
use monitor_system.Build.Link.{
  start, joined, externs, variables, functions, prototypes, own_headers, repeats, defined_names,
  IsDefined, IsImplemented, defined_once, externs-IsDefined, prototypes-IsImplemented,
}
use monitor_system.Build.Units.{IsUnit, sources_preprocessed}

abbrev pub Links : Bool → Program → ℕ → Type 0
Links release p k =
    All
      (λ u.
        (t : Pre) × (preprocess find_header (400 + k) (start release) (source_lines u) ≡ some t)
        × IsUnit release t)
      (sources p)
    × (repeats (defined_names (joined release (sources p))) ≡ false)
    × All (IsDefined (variables (joined release (sources p))))
        (externs (joined release (sources p)))
    × All (IsImplemented (functions (joined release (sources p)))) (prototypes (own_headers p))

-- Both programs of CMakeLists.txt, with and without `_R`, are made of what they declare. The
-- preprocessor reads each source to its end in 400 turns or any larger number of them: all headers are
-- found, all conditionals are closed, no struct is declared twice, and `DBG` stands for a call of
-- `printf` without `_R` and for nothing with it. No two variables or functions of a program have the
-- same name. Each variable that a source declares by `extern` is defined in a source of the program, by
-- the same type, or as a `const char *` that is declared as `char *`. Each function of common.h and
-- function.h, and in the server of thread_poll.h and db_connection_pool.h, is defined by the types of
-- its prototype.
sources-Links : (release : Bool) (p : Program) (k : ℕ) → Links release p k
sources-Links release p k = (
  sources_preprocessed release p k,
  defined_once release p,
  externs-IsDefined release p,
  prototypes-IsImplemented release p,
)
