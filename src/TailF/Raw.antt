-- ===== src/TailF/Raw.antt =====
-- cmd/tail-f/main.go and hydra/file.go: what a read of a file sends prints as its lines.
use fluent_agent_hydra.Prelude.{
  bytes_eq, ℕ, suc, ◌+◌, ◌≤◌, ◌≡◌, refl, sym, ap, ◌∙◌, inl, inr, some, List, [], ◌∷◌, ◌++◌, map,
  append_assoc, arith, All, Option-cases, Bytes, codes, ltb_of_lt, split, terminated, subst,
}
use fluent_agent_hydra.Fluent.Value.{Time}
use fluent_agent_hydra.Fluent.Record.{get_data, FluentRecordType}
use fluent_agent_hydra.Hydra.Format.{format_none, Library}
use fluent_agent_hydra.Hydra.Records.{JsonUnmarshal}
use fluent_agent_hydra.Hydra.Records.Plain.{plain_record}
use fluent_agent_hydra.Hydra.Tail.{
  File, message, stat, Event, Read, got, read_error, read_block, update_stat, tail_and_send,
}
use fluent_agent_hydra.Hydra.Tail.Delivery.{
  event_lines, record_line, terminated-append, read_block-format, tail_and_send-none,
  tail_and_send-some,
}
use fluent_agent_hydra.Hydra.InTail.{InTail}
use fluent_agent_hydra.TailF.{monitor_channel_buffer_len, print_record, print_records, tail_f}

print_record-plain :
    (t : Time) (line : Bytes)
    → print_record (plain_record t (codes "message") line) ≡ some (line ++ (b'\n' ∷ []))
unfolding print_record get_data bytes_eq
print_record-plain t line = refl

read_block-field_name :
    (f : File) (block : Bytes) → (read_block f block).0.field_name ≡ f.field_name
unfolding read_block
read_block-field_name f block = ground arith

-- A record that prints as its line.
abbrev pub IsRaw : FluentRecordType → Type 0
IsRaw r = print_record r ≡ some (record_line r ++ (b'\n' ∷ []))

abbrev pub AllRaw : List Event → Type 0
AllRaw [] = Unit {0}
AllRaw (message rs ∷ events) = All IsRaw rs.records × AllRaw events
AllRaw (stat s ∷ events) = AllRaw events

abbrev pub stat_count : List Event → ℕ
stat_count [] = 0
stat_count (message rs ∷ events) = stat_count events
stat_count (stat s ∷ events) = suc (stat_count events)

print_records-IsRaw :
    (rs : List FluentRecordType)
    → All IsRaw rs
    → print_records rs ≡ some (terminated b'\n' (map record_line rs))
unfolding print_records
print_records-IsRaw [] h = refl
print_records-IsRaw (r ∷ rs) h =
    rw (h.0, print_records-IsRaw rs h.1)
      (ap some (append_assoc (record_line r) (b'\n' ∷ []) (terminated b'\n' (map record_line rs))))

-- As long as there is room for the statistics, all lines are printed.
pub tail_f-AllRaw :
    (events : List Event) (n : ℕ)
    → AllRaw events
    → n + stat_count events ≤ monitor_channel_buffer_len
    → tail_f n events ≡ some (terminated b'\n' (event_lines events))
unfolding tail_f
tail_f-AllRaw [] n h room = refl
tail_f-AllRaw (message rs ∷ events) n h room =
    rw (print_records-IsRaw rs.records h.0, tail_f-AllRaw events n h.1 room)
      (ap some (sym (terminated-append (map record_line rs.records) (event_lines events))))
tail_f-AllRaw (stat s ∷ events) n h room =
    rw
      (
        ltb_of_lt n monitor_channel_buffer_len (omega arith),
        tail_f-AllRaw events (suc n) h (omega arith),
      )
      refl

pub AllRaw-append : (es ds : List Event) → AllRaw es → AllRaw ds → AllRaw (es ++ ds)
AllRaw-append [] ds h h' = h'
AllRaw-append (message rs ∷ es) ds h h' = (h.0, AllRaw-append es ds h.1 h')
AllRaw-append (stat s ∷ es) ds h h' = AllRaw-append es ds h h'

plain-IsRaw :
    (t : Time) (lines : List Bytes) → All IsRaw (map (plain_record t (codes "message")) lines)
plain-IsRaw t [] = tt
plain-IsRaw t (l ∷ lines) = (print_record-plain t l, plain-IsRaw t lines)

-- The settings of `tail-f`.
abbrev pub IsPlain : InTail → Type 0
IsPlain t = (t.format ≡ format_none) × (t.field_name ≡ codes "message")

abbrev pub PlainFile : File → Type 0
PlainFile f = (f.format ≡ format_none) × (f.field_name ≡ codes "message")

module _ (lib : Library) (unmarshal : JsonUnmarshal) where
  pub tail_and_send-AllRaw :
      (reads : List Read) (f : File)
      → PlainFile f
      → let (f', events, outcome) = tail_and_send lib unmarshal f reads in
        PlainFile f' × AllRaw events
  tail_and_send-AllRaw [] f h = unfold tail_and_send in (h, tt)
  tail_and_send-AllRaw (read_error ∷ reads) f h = unfold tail_and_send in (h, tt)
  tail_and_send-AllRaw (got t [] ∷ reads) f h = unfold tail_and_send in (h, tt)
  tail_and_send-AllRaw (got t (c ∷ block) ∷ reads) f h =
      let f' = (read_block f (c ∷ block)).0 in
      let plain' : f'.format ≡ format_none = read_block-format f (c ∷ block) ∙ h.0 in
      let key' : f'.field_name ≡ codes "message" = read_block-field_name f (c ∷ block) ∙ h.1 in
      elim (Option-cases (read_block f (c ∷ block)).1) [
        | inl e ↦
            rw (tail_and_send-none lib unmarshal f t c block reads e)
              (tail_and_send-AllRaw reads f' (plain', key'))
        | inr (buf, e) ↦ rw (tail_and_send-some lib unmarshal f t c block reads buf e plain') (
            let (p, raw) =
              tail_and_send-AllRaw reads (update_stat f').0
                (unfold update_stat in (plain', key')) in
            (
              p,
              (
                subst (λ k. All IsRaw (map (plain_record t k) (split b'\n' buf))) (sym key')
                    (plain-IsRaw t (split b'\n' buf)),
                raw,
              ),
            ))
      ]
