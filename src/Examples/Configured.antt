-- ===== src/Examples/Configured.antt =====
-- src/ndppd.cc and src/address.cc: a concrete configuration, and the text of an address.
use ndppd.Base.{
  ◌+◌, ◌<◌, ◌≡◌, refl, map, true, false, [], ◌∷◌, none, some, if◌then◌else◌, length, codes,
  equal_text, arith,
}
use ndppd.Base.Int.{pos}
use ndppd.Address.{Address, of_in6, prefix, set_prefix}
use ndppd.Address.Parse.{Pton, Ntop, parse_string, to_string}
use ndppd.Address.Parse.RoundTrip.{parse_string-to_string}
use ndppd.Tables.{is_xdigit, is_between}
use ndppd.World.{find_iface, install_ifd, opened, open_ifd, set_proxy}
use ndppd.Proxy.Options.{create, add_serves, add_parent, add_iface_rule, push_rule}
use ndppd.Iface.Open.{listening, reuse_or_open, install_pfd, open_pfd, open_proxy}
use ndppd.Iface.Safe.{Safe}
use ndppd.Conf.{Conf, end, entry, conf, find, find_all}
use ndppd.Conf.Load.{entries, is_empty}
use ndppd.Daemon.Configure.{
  System, set_config, configure_rule, configure_rules, configure_proxy, configure_proxies,
  start_daemon, configure,
}
use ndppd.Daemon.Configure.Order.{views}
use ndppd.Daemon.Configure.Asked.{asked, configure-views}
use ndppd.Daemon.Main.{main, SaneAtEnd, main-Safe, ConfiguredAfter, configure-IsConfigured}
use ndppd.Examples.Proxies.{host}
use ndppd.Examples.Turns.{first_kernel-IsPolling, first_turn, daemon_after}

-- Two texts that are addresses.
abbrev small_pton : Pton
small_pton text =
    if equal_text text (codes "1111::5")
    then some (host 5).addr
    else if equal_text text (codes "1111::")
    then some (host 0).addr
    else none

abbrev small_ntop : Ntop
small_ntop bytes = some (codes "1111::")

abbrev net : Address
net = set_prefix (pos 112) (host 0)

parse_string-to_string_example :
    (parse_string small_pton (to_string small_ntop net)
      ≡ (true, set_prefix (pos (prefix net)) (of_in6 net.addr)))
    × (length (to_string small_ntop net) < 46 + 8)
unfolding equal_text set_prefix is_xdigit is_between
parse_string-to_string_example =
    parse_string-to_string small_pton small_ntop net (codes "1111::") refl refl
      (refl, (refl, (refl, (refl, (refl, (refl, tt)))))) (omega arith)

abbrev rule : Conf
rule = conf (codes "1111::/112") true (entry (codes "iface") (conf (codes "eth1") false end) end)

abbrev block : Conf
block =
    conf (codes "eth0") true
      (entry (codes "rule") rule (entry (codes "ttl") (conf (codes "900") false end) end))

abbrev config : Conf
config = conf [] true (entry (codes "proxy") block end)

abbrev machine : System
machine = record {
  sockets = λ name. some (pos 3, 2 ∷ 0 ∷ 0 ∷ 0 ∷ 0 ∷ 1 ∷ []);
  packet = λ name. some (pos 4);
  pton = small_pton;
}

main-Safe_example : Safe SaneAtEnd (main machine config (first_turn ∷ []))
unfolding find_all find equal_text
main-Safe_example =
    main-Safe machine config (first_turn ∷ []) (((conf (codes "eth1") false end, refl), tt), tt)
      (first_kernel-IsPolling, tt)

configure-IsConfigured_example : Safe (ConfiguredAfter machine.sockets) (configure machine config)
configure-IsConfigured_example = configure-IsConfigured machine config

configure-views_example :
    views (daemon_after (configure machine config)).world
    ≡ map (asked machine) (find_all (codes "proxy") (entries config))
unfolding configure configure_proxies find_all equal_text configure_proxy is_empty open_proxy
    open_pfd listening find_iface reuse_or_open open_ifd opened set_config create add_serves
    install_pfd install_ifd find configure_rule configure_rules add_iface_rule add_parent push_rule
    set_proxy start_daemon
configure-views_example =
    configure-views machine config (daemon_after (configure machine config)) refl
