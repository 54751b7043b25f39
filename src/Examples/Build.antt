-- ===== src/Examples/Build.antt =====
-- A source tree with a directory, a Solidity file in each, and a document; and a deployment.
use money_interoperability.Prelude.{◌<◌, ◌≡◌, refl, none, some, [], ◌∷◌, arith, ◌+◌, length, true}
use money_interoperability.World.{ok}
use money_interoperability.Action.{done, panic}
use money_interoperability.Interop.Build.{
  Dir, directory, no_more, subdirectory, file, other, emit_solidity_rerun, search_loop, build, Host,
}
use money_interoperability.Interop.Build.Search.{directories, inner}
use money_interoperability.Interop.Contract.{
  deploy_then, price_oracle, om_interop, erc1967_proxy, Provider, deploy_uups_like,
}

abbrev tree : Dir
tree = directory (
    file ("A.sol" ∷ "src" ∷ []) (some "sol") (
      subdirectory (directory (file ("B.sol" ∷ "lib" ∷ "src" ∷ []) (some "sol") no_more))
        (file ("README.md" ∷ "src" ∷ []) (some "md") (other no_more))))

few : directories tree < 3
unfolding directories inner
few = omega arith

-- The lock file is there, and forge succeeds.
abbrev host : Host
host = record {
  manifest_dir = some ("onemoney_interop" ∷ "crates" ∷ "code" ∷ []);
  has_lock = true;
  sources = some tree;
  forge = some true;
  out_dir = some ("out" ∷ []);
  has_time = true;
  can_write = true;
}

built :
    build 3 host
    ≡ done (
        ("foundry.toml" ∷ "code" ∷ [])
        ∷ ("foundry.lock" ∷ "solidity" ∷ "code" ∷ [])
        ∷ ("A.sol" ∷ "src" ∷ [])
        ∷ ("B.sol" ∷ "lib" ∷ "src" ∷ [])
        ∷ ("forge-build.stamp" ∷ "out" ∷ [])
        ∷ [])
unfolding build emit_solidity_rerun search_loop
built = refl

-- Without forge the script panics.
unbuilt : build 3 (record host { forge = none }) ≡ panic
unfolding build emit_solidity_rerun search_loop
unbuilt = refl

abbrev provider : Provider
provider = record {
  deploy = λ before c. ok (length before + 50);
  abi_encode = λ call. call.owner ∷ call.operator ∷ call.relayer ∷ call.price_oracle ∷ [];
}

deployed :
    deploy_uups_like provider 1 2 3 []
    ≡ (done (52, 52), erc1967_proxy 51 (1 ∷ 2 ∷ 3 ∷ 50 ∷ []) ∷ om_interop ∷ price_oracle 1 2 ∷ [])
unfolding deploy_uups_like deploy_then
deployed = refl
