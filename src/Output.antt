-- ===== src/Output.antt =====
-- What the daemon does to the outside: messages on its interfaces and commands for the shell.
-- An interface (`ptr<iface>`) is its number in the table of interfaces, which stands for the pointer.
use ndppd.Base.{ℕ, Bool, List, Bytes}
use ndppd.Address.{Address}

-- A piece of a command line: the pieces are joined by single blanks.
pub data Token : Type 0 where
  word : Bytes → Token
  -- `std::string(address)`
  shown : Address → Token

pub data Output : Type 0 where
  -- ifa->write_solicit(taddr)
  solicit : ℕ → Address → Output
  -- ifa->write_advert(daddr, taddr, router)
  advert : ℕ → Address → Address → Bool → Output
  -- system(command)
  system : List Token → Output
