-- ===== src/Binding/Reading.antt =====
-- What the client reads of the parameters of a statement, as its documentation of `MYSQL_BIND` has it.
use gluamysql.Base.{
  ℕ, zero, suc, ◌≤◌, ◌<◌, ◌≡◌, ◌≢◌, ◌⊎◌, inl, inr, refl, ◌∙◌, Bool, true, false, none, some, List,
  [], ◌∷◌, ◌++◌, length, length-append, arith, if◌then◌else◌,
}
use gluamysql.Table.{Bytes}
use gluamysql.Binding.{LuaArg, Bind, BufferType, populate_bind, create_buffer, write}
use gluamysql.Binding.Buffers.{
  at_index, length-write, at_index-write_same, at_index-write_other, at_index-append,
  at_index-length,
}

abbrev pub is_bindable : LuaArg → Bool
is_bindable LuaArg.other = false
is_bindable _ = true

abbrev pub AllBindable : List LuaArg → Type 0
AllBindable [] = Unit {0}
AllBindable (a ∷ rest) = (is_bindable a ≡ true) × AllBindable rest

-- The arguments up to the number of parameters, and nil for those that are missing.
abbrev pub given : ℕ → List LuaArg → List LuaArg
given zero args = []
given (suc n) [] = LuaArg.nil ∷ given n []
given (suc n) (a ∷ rest) = a ∷ given n rest

-- The parameter as the first loop leaves it, with its flag at that index.
abbrev pub null_bind : ℕ → Bind
null_bind k = record {
  is_null = k;
  buffer_type = BufferType.unset;
  buffer = none;
  buffer_length = 0;
  length_pointer = none;
}

abbrev pub nulls : ℕ → ℕ → List Bind
nulls k zero = []
nulls k (suc n) = null_bind k ∷ nulls (suc k) n

-- What is stored at an index of the two kinds is still there.
abbrev pub Stays : (ℕ → Type 0) → List Bytes → List Bytes → Type 0
Stays At bs cs = (j : ℕ) (v : Bytes) → At j → at_index j bs ≡ some v → at_index j cs ≡ some v

module _ (ulong : ℕ → Bytes) where
  -- With these buffers the client takes the parameter for that value: a flag that is set means NULL,
  -- and a string has its length twice, the second time in a buffer.
  pub data ReadsAs (bs : List Bytes) (b : Bind) : LuaArg → Type 0 where
    reads_nil : at_index b.is_null bs ≡ some (1 ∷ []) → ReadsAs bs b LuaArg.nil
    reads_boolean :
        (p : ℕ) (v : Bool)
        → at_index b.is_null bs ≡ some (0 ∷ [])
        → b.buffer_type ≡ BufferType.tiny
        → b.buffer ≡ some p
        → at_index p bs ≡ some ((if v then 1 else 0) ∷ [])
        → ReadsAs bs b (LuaArg.boolean v)
    reads_number :
        (p : ℕ) (d : Bytes)
        → at_index b.is_null bs ≡ some (0 ∷ [])
        → b.buffer_type ≡ BufferType.double
        → b.buffer ≡ some p
        → at_index p bs ≡ some d
        → ReadsAs bs b (LuaArg.number d)
    reads_string :
        (p n : ℕ) (s : Bytes)
        → at_index b.is_null bs ≡ some (0 ∷ [])
        → b.buffer_type ≡ BufferType.blob
        → b.buffer ≡ some p
        → at_index p bs ≡ some s
        → b.buffer_length ≡ length s
        → b.length_pointer ≡ some n
        → at_index n bs ≡ some (ulong (length s))
        → ReadsAs bs b (LuaArg.string s)

  pub data AllRead (bs : List Bytes) : List Bind → List LuaArg → Type 0 where
    none_left : AllRead bs [] []
    one_more :
        {b : Bind} {rest : List Bind} {a : LuaArg} {args : List LuaArg}
        → ReadsAs bs b a
        → AllRead bs rest args
        → AllRead bs (b ∷ rest) (a ∷ args)

  -- What `PopulateBind` does to a parameter and the buffers.
  pub record Populated (a : LuaArg) (k : ℕ) (bs : List Bytes) : Type 0 where
    pub bind : Bind
    pub left : List Bytes
    pub result : populate_bind ulong a (null_bind k) bs ≡ some (bind, left)
    pub longer : length bs ≤ length left
    pub others : Stays (λ j. j ≢ k) bs left
    pub reads :
        (cs : List Bytes) → Stays (λ j. (j ≡ k) ⊎ (length bs ≤ j)) left cs → ReadsAs cs bind a

  pub populate_bind-Populated :
      (a : LuaArg) (k : ℕ) (bs : List Bytes)
      → is_bindable a ≡ true
      → k < length bs
      → Populated a k bs
  unfolding populate_bind create_buffer
  populate_bind-Populated LuaArg.other k bs e h = cc
  populate_bind-Populated LuaArg.nil k bs e h = record {
    bind = null_bind k;
    left = write ulong k (1 ∷ []) bs;
    result = refl;
    longer = omega (arith, length-write ulong k (1 ∷ []) bs);
    others = λ j v n w. at_index-write_other ulong j k (1 ∷ []) bs n ∙ w;
    reads = λ cs same.
        reads_nil (same k (1 ∷ []) (inl refl) (at_index-write_same ulong k (1 ∷ []) bs h));
  }
  populate_bind-Populated (LuaArg.boolean b) k bs e h =
      let ws : List Bytes = write ulong k (0 ∷ []) bs in
      let value : Bytes = (if b then 1 else 0) ∷ [] in
      let len : length ws ≡ length bs = length-write ulong k (0 ∷ []) bs in
      record {
        bind = record (null_bind k) { buffer_type = BufferType.tiny; buffer = some (length ws) };
        left = ws ++ value ∷ [];
        result = refl;
        longer = omega (arith, len, length-append ws (value ∷ []));
        others = λ j v n w.
            at_index-append j ws (value ∷ []) (at_index-write_other ulong j k (0 ∷ []) bs n ∙ w);
        reads = λ cs same.
            reads_boolean (length ws) b
              (same k (0 ∷ []) (inl refl)
                (at_index-append k ws (value ∷ []) (at_index-write_same ulong k (0 ∷ []) bs h)))
              refl refl
              (same (length ws) value (inr (omega (arith, len))) (at_index-length ws [] value));
      }
  populate_bind-Populated (LuaArg.number d) k bs e h =
      let ws : List Bytes = write ulong k (0 ∷ []) bs in
      let len : length ws ≡ length bs = length-write ulong k (0 ∷ []) bs in
      record {
        bind = record (null_bind k) { buffer_type = BufferType.double; buffer = some (length ws) };
        left = ws ++ d ∷ [];
        result = refl;
        longer = omega (arith, len, length-append ws (d ∷ []));
        others = λ j v n w.
            at_index-append j ws (d ∷ []) (at_index-write_other ulong j k (0 ∷ []) bs n ∙ w);
        reads = λ cs same.
            reads_number (length ws) d
              (same k (0 ∷ []) (inl refl)
                (at_index-append k ws (d ∷ []) (at_index-write_same ulong k (0 ∷ []) bs h)))
              refl refl (same (length ws) d (inr (omega (arith, len))) (at_index-length ws [] d));
      }
  populate_bind-Populated (LuaArg.string s) k bs e h =
      let ws : List Bytes = write ulong k (0 ∷ []) bs in
      let us : List Bytes = ws ++ s ∷ [] in
      let size : Bytes = ulong (length s) in
      let len : length ws ≡ length bs = length-write ulong k (0 ∷ []) bs in
      let len' = length-append ws (s ∷ []) in
      record {
        bind = record (null_bind k) {
          buffer_type = BufferType.blob;
          buffer = some (length ws);
          buffer_length = length s;
          length_pointer = some (length us);
        };
        left = us ++ size ∷ [];
        result = refl;
        longer = omega (arith, len, len', length-append us (size ∷ []));
        others = λ j v n w.
            at_index-append j us (size ∷ [])
              (at_index-append j ws (s ∷ []) (at_index-write_other ulong j k (0 ∷ []) bs n ∙ w));
        reads = λ cs same.
            reads_string (length ws) (length us) s
              (same k (0 ∷ []) (inl refl) (
                at_index-append k us (size ∷ [])
                  (at_index-append k ws (s ∷ []) (at_index-write_same ulong k (0 ∷ []) bs h))))
              refl refl
              (same (length ws) s (inr (omega (arith, len)))
                (at_index-append (length ws) us (size ∷ []) (at_index-length ws [] s)))
              refl refl
              (same (length us) size (inr (omega (arith, len, len'))) (at_index-length us [] size));
      }
