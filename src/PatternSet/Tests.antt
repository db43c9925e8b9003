-- ===== src/PatternSet/Tests.antt =====
-- Runs of the sets of patterns (PatternSet.cc), and their theorems at small ones.
use lftp.Prelude.{◌≡◌, refl, true, List, [], ◌∷◌, Bytes, codes, same}
use lftp.PatternSet.{
  exclude, include, Pattern, add, add_first, match_from, match_set, slashes, glob_match,
}
use lftp.PatternSet.Rules.{Call, adds, adds_first, set_of, rules_of, listed, verdict, says}
use lftp.PatternSet.Chain.{match_set-verdict}
use lftp.PatternSet.Glob.{longest, glob_match-longest}

abbrev is : Bytes → Pattern
is a = same a

-- The last call stands in front.
abbrev calls : List Call
calls =
    adds_first include (is (codes "d/"))
    ∷ adds exclude (is (codes "b"))
    ∷ adds include (is (codes "a"))
    ∷ []

excludes : match_set (set_of calls) exclude (codes "b") ≡ true
unfolding match_set match_from add add_first same
excludes = refl

-- The last rule includes, so what nothing matches is excluded.
excludes_other : match_set (set_of calls) exclude (codes "c") ≡ true
unfolding match_set match_from add add_first same
excludes_other = refl

-- A second `AddFirst` loses what the first one added.
loses_rule :
    listed (rules_of (adds_first exclude (is (codes "e")) ∷ calls))
    ≡ listed (
        rules_of (
          adds_first exclude (is (codes "e"))
          ∷ adds exclude (is (codes "b"))
          ∷ adds include (is (codes "a"))
          ∷ []))
loses_rule = refl

match_set-verdict_example :
    match_set (set_of calls) exclude (codes "c")
    ≡ says (verdict (listed (rules_of calls)) (codes "c")) exclude
match_set-verdict_example = match_set-verdict calls exclude (codes "c")

globs : glob_match same (codes "def/g") (codes "abc/def/g") ≡ true
unfolding glob_match same
globs = refl

glob_match-longest_example :
    glob_match same (codes "def/g") (codes "abc/def/g")
    ≡ same (codes "def/g") (longest (slashes (codes "def/g")) (codes "abc/def/g"))
glob_match-longest_example = glob_match-longest same (codes "def/g") (codes "abc/def/g")
