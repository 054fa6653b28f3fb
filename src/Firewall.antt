-- ===== src/Firewall.antt =====
-- internal/firewall/nft.go: the set `mac_paid` of devices that the kernel lets through.
-- `nft` itself is not part of the repository. It is a parameter, with what its manual says of it.
pub mod Members
use router_billing.Prelude.{
  ℕ, ◌+◌, ◌%◌, ◌≡◌, Bool, true, false, ◌&&◌, ◌||◌, not, Option, none, some, List, [], ◌∷◌, Text,
  text_eq, length, leb, ◌==◌, if◌then◌else◌, keep, any,
}
use router_billing.Db.{Result, ok, err, Error, invalid_mac, nft_failed}

-- The commands that are sent, on the set of the manager.
pub data Command : Type 0 where
  add_element delete_element : List Text → Command
  flush_set : Command

-- How `run` comes back: no error, or an error whose text `isExistsError` and `isNotFoundError` test.
pub data Outcome : Type 0 where
  done : Outcome
  failed : Bool → Bool → Outcome

-- `nft` and the kernel behind it. The state may hold more than the set, such as when it will fail.
pub record Nft : Type 1 where
  pub State : Type 0
  pub exec : Command → State → Outcome × State
  pub member : Text → State → Bool

abbrev pub among : Text → List Text → Bool
among k = any (text_eq k)

-- What the code relies on: a command that succeeds has its effect, one that fails has none, an
-- "exists" error means that the element is in the set, a "not found" or "exists" error of a delete
-- that it is not, as the code takes these texts. A MAC is compared as it is written: nft compares the
-- addresses, and everything that reaches the set from the tables is written in capitals by `NormalizeMAC`.
pub record IsNft (n : Nft) : Type 0 where
  pub add_done :
      (ms : List Text) (s : n.State) (k : Text)
      → (n.exec (add_element ms) s).0 ≡ done
      → n.member k (n.exec (add_element ms) s).1 ≡ (among k ms || n.member k s)
  pub add_failed :
      (ms : List Text) (s : n.State) (k : Text) (there missing : Bool)
      → (n.exec (add_element ms) s).0 ≡ failed there missing
      → n.member k (n.exec (add_element ms) s).1 ≡ n.member k s
  pub add_exists :
      (m : Text) (s : n.State) (missing : Bool)
      → (n.exec (add_element (m ∷ [])) s).0 ≡ failed true missing
      → n.member m s ≡ true
  pub delete_done :
      (ms : List Text) (s : n.State) (k : Text)
      → (n.exec (delete_element ms) s).0 ≡ done
      → n.member k (n.exec (delete_element ms) s).1 ≡ (not (among k ms) && n.member k s)
  pub delete_failed :
      (ms : List Text) (s : n.State) (k : Text) (there missing : Bool)
      → (n.exec (delete_element ms) s).0 ≡ failed there missing
      → n.member k (n.exec (delete_element ms) s).1 ≡ n.member k s
  pub delete_missing :
      (m : Text) (s : n.State) (there missing : Bool)
      → (n.exec (delete_element (m ∷ [])) s).0 ≡ failed there missing
      → (missing || there) ≡ true
      → n.member m s ≡ false
  pub flush_done :
      (s : n.State) (k : Text)
      → (n.exec flush_set s).0 ≡ done
      → n.member k (n.exec flush_set s).1 ≡ false
  pub flush_failed :
      (s : n.State) (k : Text) (there missing : Bool)
      → (n.exec flush_set s).0 ≡ failed there missing
      → n.member k (n.exec flush_set s).1 ≡ n.member k s

abbrev pub is_hex : ℕ → Bool
is_hex c = leb b'0' c && leb c b'9' || (leb b'A' c && leb c b'F' || leb b'a' c && leb c b'f')

-- The loop of `validMAC`, from index `i`. A code point beyond ASCII fails at every index, so that
-- Go's count of bytes and this count of code points accept the same texts.
unfoldable pub valid_from : ℕ → Text → Bool
valid_from i [] = true
valid_from i (c ∷ s) = (if i % 3 == 2 then c == b':' else is_hex c) && valid_from (i + 1) s

unfoldable pub valid_mac : Text → Bool
valid_mac s = length s == 17 && valid_from 0 s

module _ (n : Nft) where
  -- How `add` and `remove` turn an outcome into an error.
  abbrev pub answer : Bool → Result (Unit {0})
  answer true = ok tt
  answer false = err nft_failed

  abbrev added : Outcome → Bool
  added done = true
  added (failed there missing) = there

  abbrev removed : Outcome → Bool
  removed done = true
  removed (failed there missing) = missing || there

  -- `Manager.Add`
  unfoldable pub add : Text → n.State → Result (Unit {0}) × n.State
  add mac s =
      if valid_mac mac
      then (let (o, s') = n.exec (add_element (mac ∷ [])) s in (answer (added o), s'))
      else (err (invalid_mac mac), s)

  -- `Manager.Remove`
  unfoldable pub remove : Text → n.State → Result (Unit {0}) × n.State
  remove mac s =
      if valid_mac mac
      then (let (o, s') = n.exec (delete_element (mac ∷ [])) s in (answer (removed o), s'))
      else (err (invalid_mac mac), s)

  abbrev succeeded : Outcome → Bool
  succeeded done = true
  succeeded (failed _ _) = false

  -- The part of `Sync` after the flush: one `add element` with all valid MACs, unless there is none.
  abbrev populate : List Text → n.State → Result (Unit {0}) × n.State
  populate [] s = (ok tt, s)
  populate (m ∷ ms) s = let (o, s') = n.exec (add_element (m ∷ ms)) s in (answer (succeeded o), s')

  -- `Manager.Sync`
  unfoldable pub sync : List Text → n.State → Result (Unit {0}) × n.State
  sync macs s =
      let (o, s') = n.exec flush_set s in
      if succeeded o then populate (keep valid_mac macs) s' else (err nft_failed, s')
