-- ===== src/Cookies/Tests.antt =====
-- A header with a session, a CSRF token and two cookies of an application.
use mathlib.Core.Option
use cluster_gate.Prelude.{
  none, some, refl, String, ◌≡◌, before, filter_by, trim, not, trim_start, trim_end, strip_prefix,
  is_blank, split_at,
}
use cluster_gate.Cookies.{strip_cookies, cookies, is_own, join_from}
use cluster_gate.Cookies.Stripped.{strip_cookies-reads}

abbrev as_given : String → String
as_given s = s

strips : strip_cookies as_given (some "a=1; cg_session=x;  b=2;cg_csrf=y") ≡ some "a=1; b=2"
unfolding strip_cookies cookies is_own before trim trim_start trim_end strip_prefix is_blank
    split_at filter_by join_from
strips = refl

drops : strip_cookies as_given (some "cg_session=x") ≡ none
unfolding strip_cookies cookies is_own before trim trim_start trim_end strip_prefix is_blank
    split_at filter_by join_from
drops = refl

strip_cookies-reads_example :
    cookies (Option.get_or (strip_cookies as_given (some "a=1; cg_session=x")) "")
    ≡ filter_by (λ p. not (is_own as_given p)) (cookies "a=1; cg_session=x")
strip_cookies-reads_example = strip_cookies-reads as_given "a=1; cg_session=x"
