-- ===== src/Process/Lines.antt =====
-- include/synapse/process_transport.hpp: the lines that the reader delivers.
use synapse_mcp.Base.{
  ◌≡◌, refl, sym, ap, ◌∙◌, ℕ, Bool, true, false, not, ◌&&◌, List, [], ◌∷◌, ◌++◌, Option, some,
  Bytes, ascii, ◌==◌, all, map, append_assoc, append-nil, is_empty, ok, arith,
}
use synapse_mcp.Json.{Json, JsonLibrary, dump}
use synapse_mcp.Process.Defs.{Process, end_line, read_char, read_loop, send}

-- The answers of `read` while no stop is requested.
abbrev pub answers : Bytes → List (Bool × Option ℕ)
answers bytes = map (λ c. (false, some c)) bytes

-- No character that ends or is dropped from a line.
abbrev pub is_plain : Bytes → Bool
is_plain text = all (λ c. not (c == b'\n') && not (c == b'\r')) text

read_char_plain :
    (lib : JsonLibrary) (c : ℕ) (s : Process)
    → (not (c == b'\n') && not (c == b'\r')) ≡ true
    → read_char lib c s ≡ record s { line = s.line ++ c ∷ [] }
unfolding read_char
read_char_plain lib c s h = ground arith

answers_line :
    (text : Bytes) (rest : List (Bool × Option ℕ))
    → answers (text ++ ascii "\n") ++ rest ≡ answers text ++ (false, some b'\n') ∷ rest
unfolding ascii
answers_line [] rest = refl
answers_line (c ∷ text) rest = ap (λ l. (false, some c) ∷ l) (answers_line text rest)

read_plain :
    (lib : JsonLibrary) (text : Bytes) (rest : List (Bool × Option ℕ)) (s : Process)
    → is_plain text ≡ true
    → read_loop lib (answers text ++ rest) s
      ≡ read_loop lib rest (record s { line = s.line ++ text })
unfolding read_loop
read_plain lib [] rest s h =
    ap (λ l. read_loop lib rest (record s { line = l })) (sym (append-nil s.line))
read_plain lib (c ∷ text) rest s h =
    ap (read_loop lib (answers text ++ rest)) (read_char_plain lib c s (ground arith))
    ∙ read_plain lib text rest (record s { line = s.line ++ c ∷ [] }) (ground arith)
    ∙ ap (λ l. read_loop lib rest (record s { line = l })) (append_assoc s.line (c ∷ []) text)

delivered_line :
    (lib : JsonLibrary) (message : Json) (s : Process)
    → is_empty s.line ≡ false
    → lib.parse s.line ≡ ok message
    → s.has_callback ≡ true
    → read_char lib b'\n' s ≡ record s { line = []; delivered = s.delivered ++ message ∷ [] }
unfolding read_char end_line
delivered_line lib message s nonempty parsed ready = ground arith

read_end :
    (lib : JsonLibrary) (message : Json) (text : Bytes) (rest : List (Bool × Option ℕ))
    (reader : Process)
    → is_plain text ≡ true
    → is_empty text ≡ false
    → lib.parse text ≡ ok message
    → reader.line ≡ []
    → reader.has_callback ≡ true
    → read_loop lib ((false, some b'\n') ∷ rest) (record reader { line = reader.line ++ text })
      ≡ read_loop lib rest (record reader { delivered = reader.delivered ++ message ∷ [] })
unfolding read_loop
read_end lib message text rest reader plain nonempty parsed fresh ready = ap (read_loop lib rest) (
    delivered_line lib message (record reader { line = reader.line ++ text }) (ground arith)
      (ground arith) ready
    ∙ ap {A = Bytes} {B = Process}
        (λ l. record reader { line = l; delivered = reader.delivered ++ message ∷ [] }) (sym fresh))

-- What one side sends as a message, the reader at the other side delivers, whatever it delivered
-- before and whatever follows, when the serialised text is a plain line, not empty, that parses back,
-- and the reader has a callback and stands at the begin of a line.
pub read_loop-send :
    (lib : JsonLibrary) (message : Json) (text : Bytes) (rest : List (Bool × Option ℕ))
    (sender sent reader : Process)
    → send lib message sender ≡ some sent
    → dump lib message ≡ some text
    → is_plain text ≡ true
    → is_empty text ≡ false
    → lib.parse text ≡ ok message
    → reader.line ≡ []
    → reader.has_callback ≡ true
    → (sent.written ≡ sender.written ++ text ++ ascii "\n")
      × (read_loop lib (answers (text ++ ascii "\n") ++ rest) reader
          ≡ read_loop lib rest (record reader { delivered = reader.delivered ++ message ∷ [] }))
unfolding send
read_loop-send lib message text rest sender sent reader done dumped plain nonempty parsed fresh
      ready =
    (
      ground arith,
      ap (λ l. read_loop lib l reader) (answers_line text rest)
          ∙ read_plain lib text ((false, some b'\n') ∷ rest) reader plain
          ∙ read_end lib message text rest reader plain nonempty parsed fresh ready,
    )
