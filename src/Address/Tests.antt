-- ===== src/Address/Tests.antt =====
-- Runs of the constructor of an address.
use aliyun_odps_sdk_cpp.Prelude.{◌≡◌, refl, true, bytes_eq, codes}
use aliyun_odps_sdk_cpp.Result.{ok}
use aliyun_odps_sdk_cpp.Strings.{next_part, is_one_of}
use aliyun_odps_sdk_cpp.Address.{
  new_address, with_protocol, with_host, with_port, cut_path, cut_port, skip_slashes,
}
use aliyun_odps_sdk_cpp.Address.Parts.{IsOutcome, new_address-IsOutcome}

new_address-IsOutcome_example :
    IsOutcome (codes "http://odps.cn:80/api") (new_address (codes "http://odps.cn:80/api"))
new_address-IsOutcome_example = new_address-IsOutcome (codes "http://odps.cn:80/api")

read_all :
    new_address (codes "http://h:80/a")
    ≡ ok record {
      whole_path = codes "http://h:80/a";
      host = codes "h";
      protocol = codes "http";
      port = codes "80";
      path = codes "/a";
      port_present = true;
    }
unfolding new_address with_protocol with_host with_port cut_path cut_port skip_slashes next_part
    is_one_of bytes_eq
read_all = refl
