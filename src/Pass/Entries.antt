-- ===== src/Pass/Entries.antt =====
-- The map of a request that is passed on: as many entries as its header announces.
use nginx_upstream_module.Common.{
  Bytes, List, Bool, ◌++◌, ◌∷◌, [], ◌≡◌, length, append_assoc, length-append, true, append-nil,
  false, refl, subst, sym,
}
use nginx_upstream_module.Tp.{TpLib, str}
use nginx_upstream_module.Pass.{Step, ◌>>◌, count, when, entry, put}
use nginx_upstream_module.Pass.Writes.{Writes, Writes-seq, count-Writes, Writes-none, put-Writes}

-- A key and the bytes of its value.
pub record Entry : Type 0 where
  pub key : Bytes
  pub value : Bytes

module _ (lib : TpLib) where
  abbrev pub entry_bytes : Entry → Bytes
  entry_bytes e = lib.item_bytes (str e.key) ++ e.value

  abbrev pub entries_bytes : List Entry → Bytes
  entries_bytes [] = []
  entries_bytes (e ∷ es) = entry_bytes e ++ entries_bytes es

  -- A part that appends some entries and counts them.
  pub record WritesEntries (s : Step) (es : List Entry) : Type 0 where
    pub writes : Writes s (entries_bytes es) (length es)

  entries_bytes-append :
      (es fs : List Entry) → entries_bytes (es ++ fs) ≡ entries_bytes es ++ entries_bytes fs
  entries_bytes-append [] fs = refl
  entries_bytes-append (e ∷ es) fs =
      rw
        (
          entries_bytes-append es fs,
          append_assoc (entry_bytes e) (entries_bytes es) (entries_bytes fs),
        )
        refl

  pub entries-seq :
      {s next : Step} {es fs : List Entry}
      → WritesEntries s es
      → WritesEntries next fs
      → WritesEntries (s >> next) (es ++ fs)
  entries-seq {s} {next} {es} {fs} first second = record {
    writes =
        subst (λ b. Writes (s >> next) b (length (es ++ fs))) (sym (entries_bytes-append es fs))
          (subst (λ k. Writes (s >> next) (entries_bytes es ++ entries_bytes fs) k)
            (sym (length-append es fs))
            (Writes-seq s next (entries_bytes es) (entries_bytes fs) (length es) (length fs)
              first.writes second.writes));
  }

  -- A part that is counted: its key and its value.
  pub one_entry :
      (s : Step) (e : Entry) → Writes s (entry_bytes e) 0 → WritesEntries (entry s) (e ∷ [])
  one_entry s e law = record {
    writes =
        subst (λ b. Writes (entry s) b 1) (sym (append-nil (entry_bytes e)))
          (Writes-seq count s [] (entry_bytes e) 1 0 count-Writes law);
  }

  -- A key, and a value that is written by a part of its own.
  pub key_entry :
      (key : Bytes) (s : Step) (bs : Bytes)
      → Writes s bs 0
      → WritesEntries (entry (put lib (str key) >> s)) (record { key = key; value = bs } ∷ [])
  key_entry key s bs law =
      one_entry (put lib (str key) >> s) (record { key = key; value = bs })
        (Writes-seq (put lib (str key)) s (lib.item_bytes (str key)) bs 0 0
          (put-Writes lib (str key)) law)

  abbrev pub entries_if : Bool → List Entry → List Entry
  entries_if true es = es
  entries_if false es = []

  pub when-WritesEntries :
      (b : Bool) (s : Step) (es : List Entry)
      → (b ≡ true → WritesEntries s es)
      → WritesEntries (when b s) (entries_if b es)
  when-WritesEntries true s es law = law refl
  when-WritesEntries false s es law = record { writes = Writes-none s }
