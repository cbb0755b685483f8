-- ===== src/Examples/Naming.antt =====
-- Names of devices in the domains of src/topology/realm.rs.
use idnx.Common.{◌≡◌, ◌⊎◌, refl, true, bytes}
use idnx.Topology.Evidence.{DeviceKey}
use idnx.Topology.Realm.{
  split_qualified_zone, IpAddr, Realm, realm_of_key, qualify_device, is_globally_unique_mac,
  hex_octet, hex_octet_from, split_once,
}
use idnx.Topology.Realm.Domains.{domain_of, is_unique, realm_of_key-qualify_device}
use idnx.Topology.Realm.Apart.{qualify_device_apart}

abbrev site : Realm
site = Realm.peer (bytes "ab12") (bytes "eth0")

abbrev laptop : DeviceKey IpAddr
laptop = DeviceKey.mac (bytes "02:1f")

realm_of_key-qualify_device_example :
    realm_of_key (qualify_device laptop site) ≡ domain_of laptop site
realm_of_key-qualify_device_example =
    realm_of_key-qualify_device laptop site (refl, (refl, (refl, (refl, (refl, tt)))))
      (refl, (refl, (refl, (refl, tt))))

-- The second bit of the first octet is set, so the laptop belongs to the site.
laptop_test : domain_of laptop site ≡ site
unfolding is_globally_unique_mac hex_octet hex_octet_from split_once idnx.Federation.Identity.nibble
laptop_test = refl

abbrev other_site : Realm
other_site = Realm.peer (bytes "cd34") (bytes "eth0")

abbrev printer : DeviceKey IpAddr
printer = DeviceKey.mac (bytes "00:1f")

-- A manufacturer's address, which two sites report as one.
printer_seen_twice : qualify_device printer site ≡ qualify_device printer other_site
unfolding qualify_device is_globally_unique_mac hex_octet hex_octet_from split_once
    idnx.Federation.Identity.nibble
printer_seen_twice = refl

qualify_device_apart_example :
    (printer ≡ printer) × ((is_unique printer ≡ true) ⊎ (site ≡ other_site))
qualify_device_apart_example =
    qualify_device_apart printer printer site other_site (refl, (refl, (refl, (refl, (refl, tt)))))
      (refl, (refl, (refl, (refl, (refl, tt))))) (refl, (refl, (refl, (refl, tt))))
      (refl, (refl, (refl, (refl, tt)))) refl refl printer_seen_twice

-- What a peer may send as a MAC: the site's own device reads back as the other site's.
forged_test :
    realm_of_key (qualify_device (DeviceKey.mac (bytes "00:1f@cd34/eth0")) site) ≡ other_site
unfolding realm_of_key qualify_device split_qualified_zone is_globally_unique_mac hex_octet
    hex_octet_from split_once idnx.Federation.Identity.nibble
forged_test = refl
