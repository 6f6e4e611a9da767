-- ===== src/Handoff/Wire.antt =====
-- windows_capability.py: numbers as decimal texts, and the frames of a handoff.
use coordination_loop_harnes.Util.Decimal.{str_int}
use coordination_loop_harnes.Base.{
  ℕ, ◌+◌, ◌-◌, ◌*◌, ◌^◌, ◌==◌, ltb, leb, Bool, true, false, not, ◌&&◌, ◌||◌, none, some, [], ◌∷◌,
  String, Text, codes, length, all, Result, ok, err, value_error, raise_if, ◌>>◌, if◌then◌else◌,
}
use coordination_loop_harnes.Base.Int.{pos}
use coordination_loop_harnes.Json.{Json, int, str, obj, end, field, text?}
use coordination_loop_harnes.Windows.Writer.{WindowsWriterBinding}

abbrev pub is_digit : ℕ → Bool
is_digit c = leb b'0' c && leb c b'9'

-- `UINT64_DECIMAL`
unfoldable pub is_decimal : Text → Bool
is_decimal [] = false
is_decimal (c ∷ s) = elim (c == b'0') [
  | true ↦ length s == 0
  | false ↦ is_digit c && all is_digit s
]

unfoldable pub decimal : ℕ → Text → ℕ
decimal n [] = n
decimal n (c ∷ s) = decimal (n * 10 + (c - b'0')) s

unfoldable pub decimal_text : Text → Bool
decimal_text s = is_decimal s && leb (length s) 20

abbrev deadline_range : ℕ → Result ℕ
deadline_range n =
    if ltb 0 n && ltb n (2 ^ 64)
    then ok n
    else err (value_error "HOLD_NATIVE_DEADLINE_RANGE_INVALID")

unfoldable pub parse_interrupt_deadline : Json → Result ℕ
parse_interrupt_deadline value = elim (text? value) [
  | none ↦ err (value_error "HOLD_NATIVE_DEADLINE_ENCODING_INVALID")
  | some s ↦
      raise_if (not (decimal_text s)) (value_error "HOLD_NATIVE_DEADLINE_ENCODING_INVALID")
      >> deadline_range (decimal 0 s)
]

-- `INVALID_HANDLE` is the handle with all its bits set.
abbrev handle_range : ℕ → ℕ → Result ℕ
handle_range bits n =
    if not (ltb 0 n && ltb n (2 ^ bits)) || n == 2 ^ bits - 1
    then err (value_error "HOLD_NATIVE_HANDLE_RANGE_INVALID")
    else ok n

-- The first argument is the size of a handle in bits.
unfoldable pub parse_native_handle : ℕ → Text → Result ℕ
parse_native_handle bits s =
    raise_if (not (decimal_text s)) (value_error "HOLD_NATIVE_HANDLE_ENCODING_INVALID")
    >> handle_range bits (decimal 0 s)

abbrev text : String → Json
text s = str (codes s)

unfoldable pub binding_wire : WindowsWriterBinding → Json
binding_wire b = obj (
    field "issuer_sid" (text b.issuer_sid) (
      field "worker_sid" (text b.worker_sid) (
        field "scratch_sid" (text b.scratch_sid) (
          field "participant_pid" (int b.participant_pid) (
            field "participant_creation" (str (str_int b.participant_creation)) (
              field "intent_id" (text b.intent_id) (
                field "generation" (int b.generation)
                  (field "lease_sha256" (text b.lease_sha256) end))))))))

abbrev pub pre_spawn_frame : Text → Json
pre_spawn_frame digest = obj (
    field "schema_version" (text "clh.windows-local-checkpoint.v1")
      (field "stage" (text "pre_spawn_watchdog") (field "handoff_sha256" (str digest) end)))

abbrev pub bind_frame : Text → WindowsWriterBinding → ℕ → ℕ → Json
bind_frame digest b participant job = obj (
    field "schema_version" (text "clh.windows-local-bind.v1") (
      field "handoff_sha256" (str digest) (
        field "binding" (binding_wire b) (
          field "participant_handle" (str (str_int (pos participant)))
            (field "job_handle" (str (str_int (pos job))) end)))))

abbrev pub checkpoint_frame : Text → String → WindowsWriterBinding → Json
checkpoint_frame digest stage b = obj (
    field "schema_version" (text "clh.windows-local-checkpoint.v1") (
      field "stage" (text stage)
        (field "handoff_sha256" (str digest) (field "binding" (binding_wire b) end))))

abbrev pub ack_frame : Text → String → Json
ack_frame digest stage = obj (
    field "schema_version" (text "clh.windows-local-checkpoint-ack.v1")
      (field "stage" (text stage) (field "handoff_sha256" (str digest) end)))
