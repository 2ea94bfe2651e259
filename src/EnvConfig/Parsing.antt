-- ===== src/EnvConfig/Parsing.antt =====
-- `parse` on a filter that is written out.
use mathlib.Core.List.{append_assoc, append-nil}
use zaku.Prelude.{
  ◌≡◌, refl, ap, ◌∙◌, false, some, List, [], ◌∷◌, ◌++◌, map, Result, Result, All, All-append, ◌==◌,
  ok, ◌>>=◌,
}
use zaku.Text.Trim.{trim}
use zaku.Text.{Str, text, contains, split}
use zaku.Text.Split.{Lacks, split-append, split-Lacks, split_once-append}
use zaku.EnvConfig.{
  LevelFilter, level_off, level_error, level_warn, level_info, level_debug, level_trace, EnvFilter,
  clean, parse_level, push_directive, parse_directive, parse_directives, no_filter, parse,
  FilterError,
}

abbrev pub level_text : LevelFilter → Str
level_text level_off = text "off"
level_text level_error = text "error"
level_text level_warn = text "warn"
level_text level_info = text "info"
level_text level_debug = text "debug"
level_text level_trace = text "trace"

abbrev pub Directive : Type 0
Directive = Str × LevelFilter

abbrev pub print_directive : Directive → Str
print_directive d = d.0 ++ b'=' ∷ level_text d.1

-- The directives, each behind a comma.
abbrev pub print_rest : List Directive → Str
print_rest [] = []
print_rest (d ∷ ds) = b',' ∷ print_directive d ++ print_rest ds

-- A name that the parser leaves as it is: without `,`, `=`, spaces at its ends and `.rs` at its end.
pub record IsName (name : Str) : Type 0 where
  pub no_comma : Lacks b',' name
  pub no_equals : Lacks b'=' name
  pub is_clean : clean name ≡ name

abbrev pub HasName : Directive → Type 0
HasName d = IsName d.0

parse_level-level_text : (level : LevelFilter) → parse_level (trim (level_text level)) ≡ ok level
unfolding parse_level trim
parse_level-level_text level_off = refl
parse_level-level_text level_error = refl
parse_level-level_text level_warn = refl
parse_level-level_text level_info = refl
parse_level-level_text level_debug = refl
parse_level-level_text level_trace = refl

contains-level_text : (level : LevelFilter) → contains b'=' (level_text level) ≡ false
contains-level_text level_off = refl
contains-level_text level_error = refl
contains-level_text level_warn = refl
contains-level_text level_info = refl
contains-level_text level_debug = refl
contains-level_text level_trace = refl

parse_directive-print_directive :
    (filter : EnvFilter) (d : Directive)
    → HasName d
    → parse_directive filter (print_directive d) ≡ ok (push_directive filter d.0 d.1)
unfolding parse_directive
parse_directive-print_directive filter d h = rw (
  parse_directive,
  split_once-append b'=' d.0 (level_text d.1) h.no_equals,
  contains-level_text d.1,
  parse_level-level_text d.1,
  h.is_clean,
)

-- Several directives, one after another.
added : EnvFilter → List Directive → EnvFilter
added filter [] = filter
added filter (d ∷ ds) = added (push_directive filter d.0 d.1) ds

parse_directives-print :
    (filter : EnvFilter) (ds : List Directive)
    → All HasName ds
    → parse_directives filter (map print_directive ds) ≡ ok (added filter ds)
unfolding parse_directives added
parse_directives-print filter [] h = refl
parse_directives-print filter (d ∷ ds) h =
    rw (parse_directives, parse_directive-print_directive filter d h.0)
      (parse_directives-print (push_directive filter d.0 d.1) ds h.1)

added_lem :
    (filter : EnvFilter) (ds : List Directive)
    → added filter ds ≡ record filter {
      directive_names = filter.directive_names ++ map (λ (d : Directive). d.0) ds;
      directive_levels = filter.directive_levels ++ map (λ (d : Directive). d.1) ds;
    }
unfolding added
added_lem filter [] = simp append-nil
added_lem filter (d ∷ ds) = added_lem (push_directive filter d.0 d.1) ds ∙ simp append_assoc

Lacks-level_text : (level : LevelFilter) → Lacks b',' (level_text level)
Lacks-level_text level_off = (refl, (refl, (refl, tt)))
Lacks-level_text level_error = (refl, (refl, (refl, (refl, (refl, tt)))))
Lacks-level_text level_warn = (refl, (refl, (refl, (refl, tt))))
Lacks-level_text level_info = (refl, (refl, (refl, (refl, tt))))
Lacks-level_text level_debug = (refl, (refl, (refl, (refl, (refl, tt)))))
Lacks-level_text level_trace = (refl, (refl, (refl, (refl, (refl, tt)))))

Lacks-print_directive : (d : Directive) → HasName d → Lacks b',' (print_directive d)
Lacks-print_directive d h =
    All-append (λ c. (c == b',') ≡ false) d.0 (b'=' ∷ level_text d.1) h.no_comma
      (refl, Lacks-level_text d.1)

split-print_rest :
    (a : Str) (ds : List Directive)
    → Lacks b',' a
    → All HasName ds
    → split b',' (a ++ print_rest ds) ≡ a ∷ map print_directive ds
split-print_rest a [] h k = ap (split b',') (append-nil a) ∙ split-Lacks b',' a h
split-print_rest a (d ∷ ds) h k =
    split-append b',' a (print_directive d ++ print_rest ds) h
    ∙ ap (a ∷◌) (split-print_rest (print_directive d) ds (Lacks-print_directive d k.0) k.1)

-- A filter of at least one directive is read back from its print as its names and levels, if the
-- parser leaves each of the names as it is.
pub parse-print_rest :
    (d : Directive) (ds : List Directive)
    → All HasName (d ∷ ds)
    → parse (print_directive d ++ print_rest ds)
      ≡ ok (record no_filter {
        directive_names = map (λ (e : Directive). e.0) (d ∷ ds);
        directive_levels = map (λ (e : Directive). e.1) (d ∷ ds);
      })
unfolding parse
parse-print_rest d ds h =
    ap (parse_directives no_filter)
      (split-print_rest (print_directive d) ds (Lacks-print_directive d h.0) h.1)
    ∙ parse_directives-print no_filter (d ∷ ds) h
    ∙ ap ok (added_lem no_filter (d ∷ ds))

parse_directive-level_text :
    (level : LevelFilter)
    → parse_directive no_filter (level_text level)
      ≡ ok (record no_filter { level_global = some level })
unfolding parse_directive parse_level trim
parse_directive-level_text level_off = refl
parse_directive-level_text level_error = refl
parse_directive-level_text level_warn = refl
parse_directive-level_text level_info = refl
parse_directive-level_text level_debug = refl
parse_directive-level_text level_trace = refl

-- A level in front of the directives is read as the global one, and the directives are read back, if
-- the parser leaves each of their names as it is.
pub parse-print_global :
    (level : LevelFilter) (ds : List Directive)
    → All HasName ds
    → parse (level_text level ++ print_rest ds)
      ≡ ok (record {
        level_global = some level;
        directive_names = map (λ (d : Directive). d.0) ds;
        directive_levels = map (λ (d : Directive). d.1) ds;
      })
unfolding parse parse_directives
parse-print_global level ds h =
    ap (parse_directives no_filter)
      (split-print_rest (level_text level) ds (Lacks-level_text level) h)
    ∙ ap
        (λ (m : Result FilterError EnvFilter).
          m >>= λ next_filter. parse_directives next_filter (map print_directive ds))
        (parse_directive-level_text level)
    ∙ parse_directives-print (record no_filter { level_global = some level }) ds h
    ∙ ap ok (added_lem (record no_filter { level_global = some level }) ds)
