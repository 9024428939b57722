-- ===== src/Hydra/Records/Plain.antt =====
-- hydra/hydra.go: the record set of a buffer, without a format and without an expression.
use fluent_agent_hydra.Prelude.{
  ◌≡◌, refl, ◌≢◌, Option, none, some, List, [], ◌∷◌, ◌++◌, map, All, Bytes, Lacks,
}
use fluent_agent_hydra.Prelude.{split, terminated, terminated-split, split-All-Lacks, split-ne-nil}
use fluent_agent_hydra.Fluent.Value.{Time}
use fluent_agent_hydra.Fluent.Record.{FluentRecordType, tiny_message}
use fluent_agent_hydra.Hydra.Format.{format_none, format_regexp, Library, RecordModifier}
use fluent_agent_hydra.Hydra.Records.{
  Regexp, JsonUnmarshal, new_record, new_records, new_fluent_record_set,
}

abbrev pub plain_record : Time → Bytes → Bytes → FluentRecordType
plain_record t key line = tiny_message (record { timestamp = t; field_name = key; message = line })

module _ (lib : Library) (unmarshal : JsonUnmarshal) where
  new_records-plain :
      (t : Time) (key : Bytes) (mod' : Option RecordModifier) (reg : Option Regexp)
      (lines : List Bytes)
      → new_records lib unmarshal t key format_none mod' reg lines
        ≡ some (map (plain_record t key) lines)
  unfolding new_records new_record
  new_records-plain t key mod' reg [] = refl
  new_records-plain t key mod' reg (l ∷ lines) = rw (new_records-plain t key mod' reg lines)

  pub new_fluent_record_set-split :
      (t : Time) (tag key : Bytes) (mod' : Option RecordModifier) (reg : Option Regexp)
      (buffer : Bytes)
      → new_fluent_record_set lib unmarshal t tag key format_none mod' reg buffer
        ≡ some (record { tag = tag; records = map (plain_record t key) (split b'\n' buffer) })
  unfolding new_fluent_record_set
  new_fluent_record_set-split t tag key mod' reg buffer =
      rw (new_records-plain t key mod' reg (split b'\n' buffer), new_fluent_record_set)

  -- Without a format a buffer becomes one record for each line, in order, with the bytes of the
  -- line and the time of the call; no line holds a newline, and the lines with a newline
  -- behind each spell the buffer and a newline.
  pub new_fluent_record_set-plain :
      (t : Time) (tag key : Bytes) (mod' : Option RecordModifier) (reg : Option Regexp)
      (buffer : Bytes)
      → (lines : List Bytes) × (new_fluent_record_set lib unmarshal t tag key format_none mod' reg
            buffer
          ≡ some (record { tag = tag; records = map (plain_record t key) lines }))
        × All (Lacks b'\n') lines
        × (terminated b'\n' lines ≡ buffer ++ (b'\n' ∷ []))
  new_fluent_record_set-plain t tag key mod' reg buffer = (
    split b'\n' buffer,
    new_fluent_record_set-split t tag key mod' reg buffer,
    split-All-Lacks b'\n' buffer,
    terminated-split b'\n' buffer,
  )

  -- In the format "regexp" without an expression the first line already panics.
  pub new_fluent_record_set-no_regexp :
      (t : Time) (tag key : Bytes) (mod' : Option RecordModifier) (buffer : Bytes)
      → new_fluent_record_set lib unmarshal t tag key format_regexp mod' none buffer ≡ none
  unfolding new_fluent_record_set
  new_fluent_record_set-no_regexp t tag key mod' buffer =
      rw (first (split b'\n' buffer) (split-ne-nil b'\n' buffer), new_fluent_record_set)
    where
      first :
          (lines : List Bytes)
          → lines ≢ []
          → new_records lib unmarshal t key format_regexp mod' none lines ≡ none
      first [] n = absurd (n refl)
      first (l ∷ lines) n = unfold new_records new_record in refl
