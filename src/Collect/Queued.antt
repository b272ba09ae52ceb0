-- ===== src/Collect/Queued.antt =====
-- Which messages a round of the collecting thread queues.
use mathlib.Core.Path.{subst}
use monitor_system.Base.{
  Exec, ℕ, zero, suc, ◌-◌, ◌<◌, ◌≡◌, refl, sym, ap, ◌∙◌, inl, inr, Bool, true, false, ◌&&◌,
  Bool-cases, List, [], ◌∷◌, ◌++◌, append-nil, c_str-write_str, some, arith, length, take, take_all,
  replicate, ltb, ◌==◌, if◌then◌else◌, ok, stop, out_of_bounds, c_str, IsText, c_str-text,
}
use monitor_system.Message.{Msg, sys_mem, sys_cpu, sys_disk, sys_sys}
use monitor_system.Collect.{check_for, Outputs, Queues, enqueue, check_data}

-- What a script prints: some text.
abbrev pub Prints : List ℕ → Type 0
Prints s = IsText s × (0 < length s)

-- The string that a full buffer holds runs off its end.
c_str-full : (t : List ℕ) → IsText t → c_str t ≡ stop out_of_bounds
c_str-full [] h = refl
c_str-full (b ∷ t) h = ground (arith, c_str-full t h.1)

take-IsText : (n : ℕ) (t : List ℕ) → IsText t → IsText (take n t)
take-IsText zero t h = tt
take-IsText (suc n) [] h = tt
take-IsText (suc n) (b ∷ t) h = (h.0, take-IsText n t h.1)

take_nonempty : (n : ℕ) (t : List ℕ) → 0 < n → 0 < length t → 0 < length (take n t)
take_nonempty zero t p h = p
take_nonempty (suc n) [] p h = h
take_nonempty (suc n) (b ∷ t) p h = omega arith

-- The buffer of a script, and the string that `strcpy` finds in it.
check_for_text :
    (size : ℕ) (s : List ℕ)
    → 0 < size
    → Prints s
    → (buf : List ℕ) × (check_for size (some s) ≡ ok buf)
      × (c_str buf ≡ (if ltb (length s) size then ok s else stop out_of_bounds))
unfolding check_for
check_for_text size s p h =
    let some_bytes = take_nonempty size s p h.1 in
    let read : (length (take size s) == 0) ≡ false = ground arith in
    (
      take size s ++ replicate (size - length s) 0,
      rw read refl,
      elim (Bool-cases (ltb (length s) size)) [
        | inl fits ↦
            rw (fits, take_all size s (ground arith)) (padded (size - length s) (ground arith))
        | inr full ↦ rw full (filled (size - length s) (ground arith))
      ],
    )
  where
    padded : (n : ℕ) → 0 < n → c_str (s ++ replicate n 0) ≡ ok s
    padded zero q = absurd (omega arith)
    padded (suc n) q = c_str-text s (replicate n 0) h.0

    filled : (n : ℕ) → n ≡ 0 → c_str (take size s ++ replicate n 0) ≡ stop out_of_bounds
    filled zero q =
        ap c_str (append-nil (take size s)) ∙ c_str-full (take size s) (take-IsText size s h.0)
    filled (suc n) q = absurd (omega arith)

-- A message of this type, whose buffer holds this string.
pub record Carries (type : ℕ) (s : List ℕ) (msg : Msg) : Type 0 where
  pub type_set : msg.type ≡ type
  pub text : c_str msg.buff ≡ ok s
  pub size : length msg.buff ≡ 500

enqueue_text :
    (type : ℕ) (source buff s : List ℕ) (queue : List Msg)
    → c_str source ≡ ok s
    → IsText s
    → length s < 500
    → length buff ≡ 500
    → (msg : Msg) × (enqueue type source true buff queue ≡ ok (msg.buff, queue ++ (msg ∷ [])))
      × Carries type s msg
unfolding enqueue
enqueue_text type source buff s queue read text small size =
    let (filled, writes, held, kept) = c_str-write_str buff s text (omega arith) in
    (
      record { type = type; buff = filled },
      rw (read, writes) refl,
      record { type_set = refl; text = held; size = kept ∙ size },
    )

enqueue_long :
    (type : ℕ) (source buff : List ℕ) (queue : List Msg)
    → c_str source ≡ stop out_of_bounds
    → enqueue type source true buff queue ≡ stop out_of_bounds
unfolding enqueue
enqueue_long type source buff queue read = rw read refl

-- What the scripts print in one round.
pub record Texts : Type 0 where
  pub mem : List ℕ
  pub cpu : List ℕ
  pub disk : List ℕ
  pub sys : List ℕ

abbrev pub printed : Texts → Outputs
printed t = record { mem = some t.mem; cpu = some t.cpu; disk = some t.disk; sys = some t.sys }

abbrev pub all_taken : Queues
all_taken = record { mem = true; cpu = true; disk = true; sys = true }

pub record AllPrint (t : Texts) : Type 0 where
  pub mem : Prints t.mem
  pub cpu : Prints t.cpu
  pub disk : Prints t.disk
  pub sys : Prints t.sys

-- Each text leaves room for a NUL in its buffer.
abbrev pub fits : Texts → Bool
fits t =
    ltb (length t.mem) 100
    && (ltb (length t.disk) 100 && (ltb (length t.cpu) 100 && ltb (length t.sys) 200))

four_behind :
    (queue : List Msg) (m c d s : Msg)
    → (((queue ++ (m ∷ [])) ++ (c ∷ [])) ++ (d ∷ [])) ++ (s ∷ []) ≡ queue ++ (m ∷ c ∷ d ∷ s ∷ [])
four_behind [] m c d s = refl
four_behind (x ∷ queue) m c d s = ap (λ r. x ∷ r) (four_behind queue m c d s)

four_queued :
    (queue : List Msg) (m c d s : Msg)
    → ◌≡◌ {A = Exec (List Msg)}
        (ok ((((queue ++ (m ∷ [])) ++ (c ∷ [])) ++ (d ∷ [])) ++ (s ∷ [])))
        (ok (queue ++ (m ∷ c ∷ d ∷ s ∷ [])))
four_queued queue m c d s = ap ok (four_behind queue m c d s)

-- The four messages of a round, behind those that are there.
abbrev pub FourMore : Texts → List ℕ → List Msg → Type 0
FourMore t buff queue =
    (m c d s : Msg) × (check_data (printed t) all_taken buff queue
      ≡ ok (queue ++ (m ∷ c ∷ d ∷ s ∷ [])))
    × Carries sys_mem t.mem m
    × Carries sys_cpu t.cpu c
    × Carries sys_disk t.disk d
    × Carries sys_sys t.sys s

pub round_queues :
    (t : Texts) (buff : List ℕ) (queue : List Msg)
    → AllPrint t
    → fits t ≡ true
    → length buff ≡ 500
    → FourMore t buff queue
unfolding check_data
round_queues t buff queue p fit size =
    let (mem, mem_read, mem_str) = check_for_text 100 t.mem (omega arith) p.mem in
    let (disk, disk_read, disk_str) = check_for_text 100 t.disk (omega arith) p.disk in
    let (cpu, cpu_read, cpu_str) = check_for_text 100 t.cpu (omega arith) p.cpu in
    let (sys, sys_read, sys_str) = check_for_text 200 t.sys (omega arith) p.sys in
    let (m, m_put, m_ok) =
      enqueue_text sys_mem mem buff t.mem queue (ground (arith, mem_str)) p.mem.0 (ground arith)
        size in
    let (c, c_put, c_ok) =
      enqueue_text sys_cpu cpu m.buff t.cpu (queue ++ (m ∷ [])) (ground (arith, cpu_str)) p.cpu.0
        (ground arith) m_ok.size in
    let (d, d_put, d_ok) =
      enqueue_text sys_disk disk c.buff t.disk ((queue ++ (m ∷ [])) ++ (c ∷ []))
        (ground (arith, disk_str)) p.disk.0 (ground arith) c_ok.size in
    let (s, s_put, s_ok) =
      enqueue_text sys_sys sys d.buff t.sys (((queue ++ (m ∷ [])) ++ (c ∷ [])) ++ (d ∷ []))
        (ground (arith, sys_str)) p.sys.0 (ground arith) d_ok.size in
    (
      m,
      c,
      d,
      s,
      rw (mem_read, disk_read, cpu_read, sys_read, m_put, c_put, d_put, s_put)
          (four_queued queue m c d s),
      m_ok,
      c_ok,
      d_ok,
      s_ok,
    )

full_buffer_overruns :
    (t : Texts) (buff : List ℕ) (queue : List Msg)
    → AllPrint t
    → fits t ≡ false
    → length buff ≡ 500
    → check_data (printed t) all_taken buff queue ≡ stop out_of_bounds
unfolding check_data
full_buffer_overruns t buff queue p full size =
    let (mem, mem_read, mem_str) = check_for_text 100 t.mem (omega arith) p.mem in
    let (disk, disk_read, disk_str) = check_for_text 100 t.disk (omega arith) p.disk in
    let (cpu, cpu_read, cpu_str) = check_for_text 100 t.cpu (omega arith) p.cpu in
    let (sys, sys_read, sys_str) = check_for_text 200 t.sys (omega arith) p.sys in
    elim (Bool-cases (ltb (length t.mem) 100)) [
      | inr long ↦
          let stops = enqueue_long sys_mem mem buff queue (ground (arith, mem_str)) in
          rw (mem_read, disk_read, cpu_read, sys_read, stops) refl
      | inl mem_fits ↦
          let (m, m_put, m_ok) =
            enqueue_text sys_mem mem buff t.mem queue (ground (arith, mem_str)) p.mem.0
              (ground arith) size in
          elim (Bool-cases (ltb (length t.cpu) 100)) [
            | inr long ↦
                let stops =
                  enqueue_long sys_cpu cpu m.buff (queue ++ (m ∷ [])) (ground (arith, cpu_str)) in
                rw (mem_read, disk_read, cpu_read, sys_read, m_put, stops) refl
            | inl cpu_fits ↦
                let (c, c_put, c_ok) =
                  enqueue_text sys_cpu cpu m.buff t.cpu (queue ++ (m ∷ []))
                    (ground (arith, cpu_str)) p.cpu.0 (ground arith) m_ok.size in
                elim (Bool-cases (ltb (length t.disk) 100)) [
                  | inr long ↦
                      let stops =
                        enqueue_long sys_disk disk c.buff ((queue ++ (m ∷ [])) ++ (c ∷ []))
                          (ground (arith, disk_str)) in
                      rw (mem_read, disk_read, cpu_read, sys_read, m_put, c_put, stops) refl
                  | inl disk_fits ↦
                      let (d, d_put, d_ok) =
                        enqueue_text sys_disk disk c.buff t.disk ((queue ++ (m ∷ [])) ++ (c ∷ []))
                          (ground (arith, disk_str)) p.disk.0 (ground arith) c_ok.size in
                      let long : ltb (length t.sys) 200 ≡ false = ground (arith, full) in
                      let stops =
                        enqueue_long sys_sys sys d.buff
                          (((queue ++ (m ∷ [])) ++ (c ∷ [])) ++ (d ∷ []))
                          (ground (arith, sys_str)) in
                      rw (mem_read, disk_read, cpu_read, sys_read, m_put, c_put, d_put, stops) refl
                ]
          ]
    ]

-- What a round comes to, by whether all texts fit.
abbrev pub RoundResult : Bool → Texts → List ℕ → List Msg → Type 0
RoundResult true t buff queue = FourMore t buff queue
RoundResult false t buff queue = check_data (printed t) all_taken buff queue ≡ stop out_of_bounds

-- If each script prints some text and the system takes the messages, one round of the collecting
-- thread depends on the buffers only. If each text leaves room for a NUL in its buffer, of 100 bytes or
-- of 200 for system data, four messages are queued behind those that are there: memory, processor,
-- disk and system, each with its text. Else `strcpy` runs off the end of a buffer.
pub check_data_result :
    (t : Texts) (buff : List ℕ) (queue : List Msg)
    → AllPrint t
    → length buff ≡ 500
    → RoundResult (fits t) t buff queue
check_data_result t buff queue p size = elim (Bool-cases (fits t)) [
  | inl fit ↦
      subst (λ b. RoundResult b t buff queue) (sym fit) (round_queues t buff queue p fit size)
  | inr full ↦
      subst (λ b. RoundResult b t buff queue) (sym full)
        (full_buffer_overruns t buff queue p full size)
]
