-- ===== src/EnvConfig/Tests.antt =====
-- The theorems on a filter with two directives, and runs of the parser.
use zaku.Prelude.{◌≡◌, refl, some, [], ◌∷◌, ok, err}
use zaku.Text.Trim.{trim}
use zaku.Text.{text}
use zaku.EnvConfig.{
  level_info, level_debug, level_trace, invalid_level, multiple_max_levels, trim_end_matches,
  parse_level, parse_directive, parse_directives, parse,
}
use zaku.EnvConfig.Parsing.{Directive, IsName, parse-print_global}

abbrev workspace_debug : Directive
workspace_debug = (text "pane", level_debug)

workspace-IsName : IsName (text "pane")
unfolding trim trim_end_matches
workspace-IsName = record {
  no_comma = (refl, (refl, (refl, (refl, tt))));
  no_equals = (refl, (refl, (refl, (refl, tt))));
  is_clean = refl;
}

parse-print_global_example :
    parse (text "info,pane=debug")
    ≡ ok (record {
      level_global = some level_info;
      directive_names = text "pane" ∷ [];
      directive_levels = level_debug ∷ [];
    })
parse-print_global_example =
    parse-print_global level_info (workspace_debug ∷ []) (workspace-IsName, tt)

-- A bare name is a directive of the highest level.
parse_bare :
    parse (text "info,test_module")
    ≡ ok (record {
      level_global = some level_info;
      directive_names = text "test_module" ∷ [];
      directive_levels = level_trace ∷ [];
    })
unfolding parse parse_directives parse_directive parse_level trim trim_end_matches
parse_bare = refl

parse_twice : parse (text "info,warn") ≡ err multiple_max_levels
unfolding parse parse_directives parse_directive parse_level trim
parse_twice = refl

parse_bad : parse (text "test_module=foobar") ≡ err (invalid_level (text "foobar"))
unfolding parse parse_directives parse_directive parse_level trim
parse_bad = refl
