-- ===== src/Examples/Parsing.antt =====
-- src/conf.cc and src/ndppd.cc at concrete texts.
use ndppd.Base.{
  length, some, Every, suc, ◌≡◌, ◌≢◌, refl, ◌↔◌, true, false, [], ◌∷◌, ◌++◌, arith, Bytes, codes,
}
use ndppd.Tables.{is_space, is_between}
use ndppd.Conf.{
  Conf, end, entry, conf, parsed, out_of_fuel, parse, parse_block, load, is_quoted, skip_on, skip,
  skip_blanks, comment_at, is_blank, is_name, is_alnum, take_while, read_value, is_plain,
  skip_equals, after, insert, at_end, close, find_all,
}
use ndppd.Conf.Skip.{IsSkipped}
use ndppd.Conf.Total.{load-all_printable}
use ndppd.Conf.Stuck.{parse_block-stuck}
use ndppd.Conf.Quotes.{parse-quoted}
use ndppd.Conf.Load.{entries, IsProxy, load_config, load_config_iff}

abbrev small_text : Bytes
small_text = codes "proxy eth0 { rule 2001:db8::/64 { static } }"

load-all_printable_example :
    (load 200 small_text ≢ out_of_fuel)
    × ((skip_on (suc (length small_text)) true small_text ≡ some (skip true small_text))
        × IsSkipped true (skip true small_text))
unfolding is_space is_between
load-all_printable_example = load-all_printable 200 small_text true refl (omega arith)

parse_block-stuck_example : parse_block 1000 end (1 ∷ codes "proxy") ≡ out_of_fuel
unfolding is_space is_between
parse_block-stuck_example = parse_block-stuck 1 (codes "proxy") refl 1000 end

parse-quoted_example :
    parse 7 (34 ∷ (codes "eth0" ++ (34 ∷ codes " {")))
    ≡ parsed (conf (codes "eth0") false end) (34 ∷ codes " {")
unfolding is_quoted
parse-quoted_example = parse-quoted (codes "eth0") (codes " {") refl 6

abbrev static_rule : Conf
static_rule = conf (codes "2001:db8::/64") true (entry (codes "static") (conf [] false end) end)

abbrev small_config : Conf
small_config =
    conf [] true
      (entry (codes "proxy") (conf (codes "eth0") true (entry (codes "rule") static_rule end)) end)

load_config_iff_example :
    (load_config 200 small_text ≡ parsed small_config [])
    ↔ Every IsProxy (find_all (codes "proxy") (entries small_config))
unfolding load parse_block parse skip skip_on skip_blanks comment_at is_blank is_name is_alnum
    take_while read_value is_plain skip_equals after insert at_end close is_space is_between
load_config_iff_example = load_config_iff 200 small_text [] small_config refl
