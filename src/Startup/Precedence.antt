-- ===== src/Startup/Precedence.antt =====
-- Which settings win.
use mathlib.Core.Path.{subst}
use monitor_system.Base.{
  ℕ, ◌≡◌, ◌≢◌, ◌<◌, ◌⊎◌, inl, inr, refl, sym, ap, ◌∙◌, true, false, Bool-cases, List, [], ◌∷◌,
  Option, none, some, arith, codes, length, ltb, ℤ, pos, ok, stop, null_pointer, ◌>>=◌, first_call,
  strcpy,
}
use monitor_system.Offline.{DataFile, is_zero}
use monitor_system.Config.{get_conf_value}
use monitor_system.Startup.{atoi, conf_text, read_value, default_number, default_text}
use monitor_system.Startup.Settings.{
  ServerSettings, ServerOption, port_arg, token_arg, threads_arg, other, server_zeros,
  server_option, server_options, server_config,
}

-- A number that was given is kept, and else the number that the file has for the key is used.
abbrev pub NumberFrom : DataFile → List ℕ → ℤ → ℤ → Type 0
NumberFrom file key given used =
    ((is_zero given ≡ false) × (used ≡ given))
    ⊎ ((is_zero given ≡ true)
        × ((v : List ℕ) × (get_conf_value file key ≡ ok (some v)) × (used ≡ atoi v)))

-- The same for a text.
abbrev pub TextFrom : DataFile → List ℕ → List ℕ → List ℕ → Type 0
TextFrom file key given used =
    ((given ≢ []) × (used ≡ given))
    ⊎ ((given ≡ []) × (get_conf_value file key ≡ ok (some used)) × (length used < 20))

conf_text-some :
    (file : DataFile) (key v : List ℕ)
    → conf_text file key ≡ ok v
    → get_conf_value file key ≡ ok (some v)
conf_text-some file key v e =
    let (o, got, read) = first_call (get_conf_value file key) read_value e in from o got read
  where
    from :
        (o : Option (List ℕ))
        → get_conf_value file key ≡ ok o
        → read_value o ≡ ok v
        → get_conf_value file key ≡ ok (some v)
    from none got read = absurd (cc read)
    from (some w) got read = cc (got, read)

default_number_cases :
    (file : DataFile) (key : List ℕ) (n used : ℤ)
    → default_number file key n ≡ ok used
    → NumberFrom file key n used
unfolding default_number
default_number_cases file key n used e = elim (Bool-cases (is_zero n)) [
  | inr given ↦ inl (given, ground (arith, e))
  | inl absent ↦
      let run : (conf_text file key >>= λ v. ok (atoi v)) ≡ ok used = ground (arith, e) in
      let (v, got, rest) = first_call (conf_text file key) (λ v. ok (atoi v)) run in
      inr (absent, (v, conf_text-some file key v got, cc rest))
]

default_text_cases :
    (file : DataFile) (key s used : List ℕ)
    → default_text file key s ≡ ok used
    → TextFrom file key s used
unfolding default_text
default_text_cases file key [] used e =
    let (v, got, rest) = first_call (conf_text file key) (strcpy 20) e in
    let same : v ≡ used = ground (arith, rest) in
    inr (refl, conf_text-some file key v got ∙ ap (λ w. ok (some w)) same, ground (arith, rest))
default_text_cases file key (b ∷ s) used e = inl ((λ h. cc h), ground (arith, e))

abbrev pub FromFile : DataFile → List ℕ → ℤ → Type 0
FromFile file key used = (v : List ℕ) × (get_conf_value file key ≡ ok (some v)) × (used ≡ atoi v)

-- Where each setting of the server comes from.
abbrev pub Chosen : DataFile → ServerSettings → ServerSettings → Type 0
Chosen file given used =
    NumberFrom file (codes "PORT") given.port used.port
    × NumberFrom file (codes "TRHEAD_NUM") given.thread_num used.thread_num
    × TextFrom file (codes "TOKEN") given.token used.token
    × FromFile file (codes "TASK_QUEUE_SIZE") used.task_queue_size

from_file :
    (file : DataFile) (key : List ℕ) (given used : ℤ)
    → given ≡ pos 0
    → NumberFrom file key given used
    → FromFile file key used
from_file file key given used zero (inl (nonzero, same)) = absurd (cc (ap is_zero zero, nonzero))
from_file file key given used zero (inr (is, found)) = found

-- No option sets the size of the task queue.
server_options-size :
    (os : List ServerOption) (g h : ServerSettings)
    → server_options os g ≡ ok h
    → h.task_queue_size ≡ g.task_queue_size
unfolding server_options server_option
server_options-size [] g h e = let same : g ≡ h = cc e in ap (λ x. x.task_queue_size) (sym same)
server_options-size (port_arg a ∷ os) g h e =
    server_options-size os (record g { port = atoi a }) h e
server_options-size (threads_arg a ∷ os) g h e =
    server_options-size os (record g { thread_num = atoi a }) h e
server_options-size (other ∷ os) g h e = server_options-size os g h e
server_options-size (token_arg a ∷ os) g h e = elim (Bool-cases (ltb (length a) 20)) [
  | inl fits ↦
      let run : server_options os (record g { token = a }) ≡ ok h = ground (arith, e) in
      server_options-size os (record g { token = a }) h run
  | inr long ↦ absurd (ground (arith, e))
]

-- Where the server gets as far as its sockets, its port, its number of threads and its token are
-- those of the command line where one was given that is not 0 or empty, and else those of the
-- configuration file. The size of the task queue is always the file's.
server_settings :
    (options : List ServerOption) (file : DataFile) (given used : ServerSettings)
    → server_options options server_zeros ≡ ok given
    → server_config file given ≡ ok used
    → Chosen file given used
unfolding server_config
server_settings options file given used parsed e =
    let (port, e1, r1) = first_call (default_number file (codes "PORT") given.port) _ e in
    let (threads, e2, r2) =
      first_call (default_number file (codes "TRHEAD_NUM") given.thread_num) _ r1 in
    let (token, e3, r3) = first_call (default_text file (codes "TOKEN") given.token) _ r2 in
    let (size, e4, r4) =
      first_call (default_number file (codes "TASK_QUEUE_SIZE") given.task_queue_size) _ r3 in
    let same : record { port = port; thread_num = threads; token = token; task_queue_size = size }
        ≡ used =
      cc r4 in
    let zero : given.task_queue_size ≡ pos 0 =
      server_options-size options server_zeros given parsed in
    subst (Chosen file given) same (
      default_number_cases file (codes "PORT") given.port port e1,
      default_number_cases file (codes "TRHEAD_NUM") given.thread_num threads e2,
      default_text_cases file (codes "TOKEN") given.token token e3,
      from_file file (codes "TASK_QUEUE_SIZE") given.task_queue_size size zero
          (default_number_cases file (codes "TASK_QUEUE_SIZE") given.task_queue_size size e4),
    )

-- Without its configuration file the server follows a null pointer, whatever its command line says.
pub missing_config_crashes :
    (options : List ServerOption) (given : ServerSettings)
    → server_options options server_zeros ≡ ok given
    → server_config none given ≡ stop null_pointer
unfolding server_config default_number default_text get_conf_value
missing_config_crashes options given parsed =
    let zero = server_options-size options server_zeros given parsed in ground (arith, zero)
