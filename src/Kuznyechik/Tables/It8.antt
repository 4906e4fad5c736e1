-- ===== src/Kuznyechik/Tables/It8.antt =====
-- internal/kuznyechik/tables.go: `it[8]`, 256 entries of two words.
use kubebao.Common.{ℕ, List, [], ◌∷◌}

unfoldable pub it_row8 : List (ℕ × ℕ)
it_row8 =
    (0x4a8c95c20416aa99, 0xf8ad0a2149f0eb63)
    ∷ (0x97a1b595a3dae393, 0x38a835097fbd191b)
    ∷ (0xbc21c5a63b2bfd88, 0xdb448a653eadb5af)
    ∷ (0xe1aa1a276c2916ae, 0x5c57eefdcc8402c4)
    ∷ (0x78cd74e05509be8b, 0xfba46169375123bb)
    ∷ (0x2e0e9486a62882bd, 0xfebfdcb1b571b810)
    ∷ (0x23b213069724bd69, 0x6ad54767dc878ca9)
    ∷ (0xb838155ddda04db1, 0x7eb9f6819107a540)
    ∷ (0x954cdd09d07ebb6e, 0x8b370b7bc9e8118d)
    ∷ (0xf9fcbf787d953038, 0x041c25e0a8fe62e3)
    ∷ (0xb2e71ef4a1d1b63e, 0x441f30f8bac58dcb)
    ∷ (0x6a44da1638c46392, 0x99496c0d78e96b17)
    ∷ (0xdcba14197f9e6595, 0x78ab20116d86f633)
    ∷ (0x3e6a52ecb8410759, 0x2fcdefa74c9cf82a)
    ∷ (0xe03d2e69b47b3a31, 0xe4f9f1c4974f068f)
    ∷ (0x83dca3045b38d64e, 0x4c277afb29fa49ce)
    ∷ (0xbb42498f765639d3, 0x7588d7ca7c99a99d)
    ∷ (0xdbd9983032e3a1ce, 0xd6677dbe2fb2ea01)
    ∷ (0x4e954539e29d1aa0, 0x5d5076c5e65afb8c)
    ∷ (0xed81a9e9857705e5, 0x70936a12feb93236)
    ∷ (0xf059e803aa12bfd5, 0x358bc2d26ea246b5)
    ∷ (0x5c1cebcf8f50c7b9, 0x3fbd7ba1a9e2b320)
    ∷ (0x3c873a70cbe55fa4, 0x9c52d1d5fac9f0bc)
    ∷ (0x17074a43531441bf, 0x7fbe6eb9bbd95c08)
    ∷ (0x7d4390556bd0222d, 0xe6f702b4c330371f)
    ∷ (0xd488772c704bc6e7, 0xf192d81af011d62e)
    ∷ (0xe998791263fcb5dc, 0xd56e16f6511322d9)
    ∷ (0xeb75118e1058ed21, 0x66f12884e7462a4f)
    ∷ (0x70ff17d55adc1df9, 0x729d9962aac603a6)
    ∷ (0xcd49e63db9a5ccee, 0x11770c3ecfa0b242)
    ∷ (0x037a5cd2abf67462, 0x0b31214bed9e0cdd)
    ∷ (0x1f3529765cc1e2cd, 0xf68796b2264e7c15)
    ∷ (0x8c8d4c181990b167, 0x6bd2df5ff65975e1)
    ∷ (0x083263350fd5a372, 0x8939f80b9d97201d)
    ∷ (0x73854b07f12a699b, 0x79acb82947580f7b)
    ∷ (0xeae225c0c80ac1be, 0xde5f37bdbc8d2e04)
    ∷ (0x42bef6f70bc309eb, 0x7194f22ad467cb7e)
    ∷ (0x131e9ab8b59ff186, 0xda43125d14734ce7)
    ∷ (0x9ce98a7207f93483, 0xbaa0ec490fb435db)
    ∷ (0x19c19111c9ee0a09, 0xe0e5d4243fb1646c)
    ∷ (0x55b9bcb458d74854, 0x0e2a9c936fbe9776)
    ∷ (0x87c573ffbdb36677, 0xe9da061f86505921)
    ∷ (0x2ce3fc1ad58cda40, 0x4d20e2c30324b086)
    ∷ (0x222527484f7691f6, 0xd27b585e874c88e2)
    ∷ (0xfa86e3aad663445a, 0x0f2d04ab45606e3e)
    ∷ (0x6bd3ee58e0964f0d, 0x21e7733423226f5c)
    ∷ (0xb413a69334fe5efa, 0x527d726ea33a95b2)
    ∷ (0xc2180921fb0dabc7, 0x3682a99a10038e6d)
    ∷ (0xb58492ddecac7265, 0xead36d57f8f191f9)
    ∷ (0x7571f3606405815f, 0x6fcefabf5ea71702)
    ∷ (0x46a7260ced48b9d2, 0xd4698ece7bcddb91)
    ∷ (0x693e86c4933217f0, 0x92784d46957767ca)
    ∷ (0x215f7b9ae480e594, 0xd94a79156ad2843f)
    ∷ (0xe80f4d5cbbae9943, 0x6dc009cf0ad82692)
    ∷ (0x5ef18353fcf49f44, 0x8c2245d31fb7bbb6)
    ∷ (0xfc725bcd434cac9e, 0x194f463d5c9f7647)
    ∷ (0x7bb72832feffcae9, 0xf0954022dacf2f66)
    ∷ (0x7cd4a41bb3820eb2, 0x5e591d8d98fb3354)
    ∷ (0xcbbd5e5a2c8a242a, 0x07154ea8d65faa3b)
    ∷ (0xcfa48ea1ca019413, 0xa2e8324c79f5bad4)
    ∷ (0xab268fe5683fbc37, 0xa4fae4dc8574e9a7)
    ∷ (0x9d7ebe3cdfab181c, 0x020ef370547f3190)
    ∷ (0x37cf05976fc688b4, 0x1e5a08958ac0dc7c)
    ∷ (0x0c2bb3cee95e134b, 0x2cc484ef323d30f2)
    ∷ (0x63e18d6def43ec7f, 0xa8de8b3fbeb54f41)
    ∷ (0xd51f4362a819ea78, 0x493cc723abdad265)
    ∷ (0xe2d046f5c7df62cc, 0x5766cfb6211a0e19)
    ∷ (0xa5e054b7f2c5f781, 0x3ba15e41011cd1c3)
    ∷ (0xd8a3c4e29915d5ac, 0xdd565cf5c22ce6dc)
    ∷ (0xb769fa419f082a98, 0x594c53254ea4996f)
    ∷ (0x6cb06271adeb8b56, 0x8f2b2e9b6116736e)
    ∷ (0xa47760f92a97db1e, 0x830f41785ad7d588)
    ∷ (0x1dd841ea2f65ba30, 0x4518a8c0901b7483)
    ∷ (0x795a40ae8d5b9214, 0x430a7e506c9a27f0)
    ∷ (0xfb11d7e40e3168c5, 0xb7831b921eab6a75)
    ∷ (0x35226d0b1c62d049, 0xadc536e73c95d4ea)
    ∷ (0x45dd7ade46becdb0, 0xdf58af859653d74c)
    ∷ (0x313bbdf0fae96070, 0x08384a03933fc405)
    ∷ (0x20c84fd43cd2c90b, 0x61e4662c31198074)
    ∷ (0x058ee4b53ed99ca6, 0x1d5363ddf46114a4)
    ∷ (0x1c4f75a4f73796af, 0xfdb6b7f9cbd070c8)
    ∷ (0xb3702aba79839aa1, 0xfcb12fc1e10e8980)
    ∷ (0xbdb6f1e8e379d117, 0x63ea955c6566b1e4)
    ∷ (0xe6c9960e2154d2f5, 0xf29bb3528eb01ef6)
    ∷ (0x02ed689c73a458fd, 0xb39f3e72b6550896)
    ∷ (0x8beec03154ed753c, 0xc51e82f0b46d69d3)
    ∷ (0xa9cbe7791b9be4ca, 0x1765daae3321e131)
    ∷ (0x779c9bfc17a1d9a2, 0xdc51c4cde8f21f94)
    ∷ (0xf1cedc4d7240934a, 0x8d25ddeb356942fe)
    ∷ (0x963681db7b88cf0c, 0x80062a3024761d50)
    ∷ (0xef6cc175f6d35d18, 0xc30c546048ec3aa0)
    ∷ (0xb00a7668d275eec3, 0xf7800e8a0c90855d)
    ∷ (0x9a1d321592d6dc47, 0xacc2aedf164b2da2)
    ∷ (0x0adf0ba97c71fb8f, 0x3aa6c6792bc2288b)
    ∷ (0x50375801660ed4f2, 0x1379ff4e9bdf83d2)
    ∷ (0x6276b9233711c0e0, 0x10709406e57e4b0a)
    ∷ (0x760bafb2cff3f53d, 0x64ffdbf4b3391bdf)
    ∷ (0x93b8656e455153aa, 0x9d5549edd01709f4)
    ∷ (0x91550df236f50b57, 0x2eca779f66420162)
    ∷ (0xeefbf53b2e817187, 0x7ba24b5913273eeb)
    ∷ (0x0ec6db529afa4bb6, 0x9f5bba9d84683864)
    ∷ (0xa69a0865593383e3, 0x30907f0aec82dd1e)
    ∷ (0xd27ccf4be5642e23, 0xe7f09a8ce9eece57)
    ∷ (0x1ea21d388493ce52, 0x4e29898b7d85785e)
    ∷ (0xf73a642ae76f7b8e, 0x9b479f7d2c965a87)
    ∷ (0x147d1691f8e235dd, 0x748f4ff2564750d5)
    ∷ (0x80a6ffd6f0cea22c, 0x47165bb0c4644513)
    ∷ (0x27abc3fd71af0d50, 0xcf283b83732d9c46)
    ∷ (0xf44038f84c990fec, 0x9076be36c108565a)
    ∷ (0x4b1ba18cdc448606, 0x40031518123bef28)
    ∷ (0xaea86b5056e62091, 0xb9a987017115fd03)
    ∷ (0x8a79f47f8cbf59a3, 0x7db09dc9efa66d98)
    ∷ (0x3be4b65986989bff, 0x329e8c7ab8fdec8e)
    ∷ (0xc57b8508b6706f9c, 0x984ef4355237925f)
    ∷ (0x365831d9b794a42b, 0xa6f417acd10bd837)
    ∷ (0x3ffd66a260132bc6, 0x9763f09e1757fc61)
    ∷ (0x0419d0fbe68bb039, 0xa5fd7ce4afaa10ef)
    ∷ (0x0f51ef1c42a86729, 0x27f5a5a4dfa33c2f)
    ∷ (0x07638c294d7dc45b, 0xaecc5daf42341c32)
    ∷ (0x534d04d3cdf8a090, 0x1848de0576418f0f)
    ∷ (0xc38f3d6f235f8758, 0x8e2cb6a34bc88a26)
    ∷ (0x94dbe947082c97f1, 0x33991442922315c6)
    ∷ (0x2d74c8540ddef6df, 0xf58efdfa58efb4cd)
    ∷ (0xf2b4809fd9b6e728, 0x8614fca0d8f74e23)
    ∷ (0x3a7382175ecab760, 0x8a309343e336e8c5)
    ∷ (0x28fa2ce133076a79, 0xe8dd9e27ac8ea069)
    ∷ (0x7a201c7c26ade676, 0x483b5f1b81042b2d)
    ∷ (0xc4ecb1466e224303, 0x20e0eb0c09fc9614)
    ∷ (0x90c239bceea727c8, 0x966468a63d890529)
    ∷ (0x3909dec5f53cc302, 0x8101b2080ea8e418)
    ∷ (0x3241e122511f1412, 0x03096b487ea1c8d8)
    ∷ (0x30ac89be22bb4cef, 0xb096553ac8f4c04e)
    ∷ (0x67f85d9609c85c46, 0x0d23f7db111f5fae)
    ∷ (0xda4eac7eeab18d51, 0x6ec962877479ee4a)
    ∷ (0x5f66b71d24a6b3db, 0x348c5aea447cbffd)
    ∷ (0x4329c2b9d3912574, 0xc93aed138faccf35)
    ∷ (0x52da309d15aa8c0f, 0xa0e6c13c2d8a8b44)
    ∷ (0x8903a8ad27492dc1, 0x7681bc8202386145)
    ∷ (0x33d6d56c894d388d, 0xbba77471256acc93)
    ∷ (0xde577c850c3a3d68, 0xcb341e63dbd3fea5)
    ∷ (0xf323b4d101e4cbb7, 0x3ebae399833c4a68)
    ∷ (0xaf3f5f1e8eb40c0e, 0x010798382adef948)
    ∷ (0x4c782da59139425d, 0xeecf48b7500ff31a)
    ∷ (0x5b7f67e6c22d03e2, 0x9171260eebd6af12)
    ∷ (0x74e6c72ebc57adc0, 0xd760e586056c1349)
    ∷ (0x1856a55f11bc2696, 0x584bcb1d647a6027)
    ∷ (0x2546ab61020b55ad, 0x7cb705f1c57894d0)
    ∷ (0xfde56f839b1e8001, 0xa1e159040754720c)
    ∷ (0x64820144a23e2824, 0x0612d690fc815373)
    ∷ (0x865247b165e14ae8, 0x51741926dd9b5d6a)
    ∷ (0xce33baef1253b88c, 0x1a462d75223ebe9f)
    ∷ (0xadd23782fd1054f3, 0xb298a64a9c8bf1de)
    ∷ (0xf86b8b36a5c71ca7, 0xbcb23ad9f33566a8)
    ∷ (0x6fca3ea3061dff34, 0x841a0fd08c887fb3)
    ∷ (0x296d18afeb5546e6, 0x5073811ef745a422)
    ∷ (0xc8c70288877c5048, 0x0c246fe33bc1a6e6)
    ∷ (0x98f05a89e17284ba, 0x1f5d90ada01e2534)
    ∷ (0xb6fece0f475a0607, 0xe1e24c1c156f9d24)
    ∷ (0xff08071fe8bad8fc, 0x127e6776b1017a9a)
    ∷ (0x47301242351a954d, 0x6cc791f72006dfda)
    ∷ (0x1289aef66dcddd19, 0x62ed0d644fb848ac)
    ∷ (0x15ea22df20b01942, 0xcc2150cb0d8c549e)
    ∷ (0xbeccad3a488fa575, 0x68dbb41788f8bd39)
    ∷ (0xbad57dc1ae04154c, 0xcd26c8f32752add6)
    ∷ (0x5754d4282b7310a9, 0xbdb5a2e1d9eb9fe0)
    ∷ (0x610ce5f19ce7b482, 0x1b41b54d08e047d7)
    ∷ (0xdfc048cbd46811f7, 0x739a015a8018faee)
    ∷ (0xe424fe9252f08a08, 0x41048d2038e51660)
    ∷ (0x7e39cc87c026564f, 0xedc623ff2eae3bc2)
    ∷ (0x0b483fe7a423d710, 0x8208d94070092cc0)
    ∷ (0x3d100e3e13b7733b, 0x24fcceeca102f4f7)
    ∷ (0x542e88fa808564cb, 0xb68483aa3475933d)
    ∷ (0x16907e0d8b466d20, 0xc7107180e0125843)
    ∷ (0xfe9f335130e8f463, 0xaad0784feaca7ed1)
    ∷ (0xf5d70cb694cb2373, 0x28d8a10f9ac35211)
    ∷ (0x09a5577bd7878fed, 0x3197e732c65c2456)
    ∷ (0xbf5b997490dd89ea, 0xd075ab2ed333b972)
    ∷ (0x6d27563f75b9a7c9, 0x378531a23add7725)
    ∷ (0x24d19f2fda597932, 0xc4191ac89eb3909b)
    ∷ (0x2a17447d40a33284, 0x5b42a0551adba8ff)
    ∷ (0xe34772bb1f8d4e53, 0xefc8d08f7ad10a52)
    ∷ (0x72127f4929784504, 0xc102a7101c930b30)
    ∷ (0xa70d3c2b8161af7c, 0x883e6033b749d955)
    ∷ (0xd10693994e925a41, 0xecc1bbc70470c28a)
    ∷ (0xa06eb002cc1c6b27, 0x26f23d9cf57dc567)
    ∷ (0xa85cd337c3c9c855, 0xafcbc59768eae57a)
    ∷ (0x263cf7b3a9fd21cf, 0x778624ba28e6980d)
    ∷ (0xccded27361f7e071, 0xa9d91307946bb609)
    ∷ (0xf6ad50643f3d5711, 0x23e98044775d5ecc)
    ∷ (0xe5b3cadc8aa2a697, 0xf9aa9219632e122b)
    ∷ (0x666f69d8d19a70d9, 0xb58de8e24ad45be5)
    ∷ (0x7faef8c918747ad0, 0x55683cc675653f89)
    ∷ (0xaab1bbabb06d90a8, 0x1c54fbe5debfedec)
    ∷ (0x2b80703398f11e1b, 0xe3ecbf6c4110acb4)
    ∷ (0x40539e6b78675116, 0xc20bcc586232c3e8)
    ∷ (0xac4503cc2542786c, 0x0a36b973c740f595)
    ∷ (0x444a4e909eece12f, 0x67f6b0bccd98d307)
    ∷ (0xa314ecd067ea1f45, 0x2dc31cd718e3c9ba)
    ∷ (0xd934f0ac4147f933, 0x65f843cc99e7e297)
    ∷ (0x609bd1bf44b5981d, 0xa3efaa74532b439c)
    ∷ (0xc601d9da1d861bfe, 0x937fd57ebfa99e82)
    ∷ (0xec169da75d25297a, 0xc83d752ba572367d)
    ∷ (0x4861fd5e77b2f264, 0x4b323453ffa5e3f5)
    ∷ (0x8131cb98289c8eb3, 0xffb844899faf4158)
    ∷ (0x59920f7ab1895b1f, 0x22ee187c5d83a784)
    ∷ (0xb9af211305f2612e, 0xc617e9b8cacca10b)
    ∷ (0x1064c66a1e6985e4, 0xd1723316f9ed403a)
    ∷ (0xe75ea240f906fe6a, 0x4a35ac6bd57b1abd)
    ∷ (0x5ae853a81a7f2f7d, 0x29df3937b01dab59)
    ∷ (0x9b8a065b4a84f0d8, 0x146cb1e64d8029e9)
    ∷ (0x4def19eb496b6ec2, 0x5661578e0bc4f751)
    ∷ (0x56c3e066f3213c36, 0x051bbdd882209bab)
    ∷ (0x8d1a7856c1c29df8, 0xd37cc066ad9271aa)
    ∷ (0x5d8bdf815702eb26, 0x87136498f229b76b)
    ∷ (0x4f0271773acf363f, 0xe5fe69fcbd91ffc7)
    ∷ (0xdd2d2057a7cc490a, 0xc0053f28364df278)
    ∷ (0x0197344ed8522c9f, 0xb8ae1f395bcb044b)
    ∷ (0x1b2cf98dba4a52f4, 0x537aea5689e46cfa)
    ∷ (0xd6651fb003ef9e1a, 0x420de6684644deb8)
    ∷ (0xc16255f350fbdfa5, 0x3db388d1fd9d82b0)
    ∷ (0xc796ed94c5d43761, 0x2bd1ca47e4629ac9)
    ∷ (0x922f51209d037f35, 0x25fb56d48bdc0dbf)
    ∷ (0x11f3f224c63ba97b, 0x69dc2c2fa2264471)
    ∷ (0xd091a7d796c076de, 0x546fa4fe5fbbc6c1)
    ∷ (0xca2a6a14f4d808b5, 0xbfbb51918d94ae70)
    ∷ (0xa283d89ebfb833da, 0x956d03ee4328cdf1)
    ∷ (0xd3ebfb053d3602bc, 0x5f5e85b5b225ca1c)
    ∷ (0xc95036c65f2e7cd7, 0xb48a70da600aa2ad)
    ∷ (0x6e5d0aedde4fd3ab, 0x3cb410e9d7437bf8)
    ∷ (0x2f99a0c87e7aae22, 0x4611c388eebabc5b)
    ∷ (0x7168239b828e3166, 0xca33865bf10d07ed)
    ∷ (0xc0f561bd88a9f33a, 0x851d97e8a65686fb)
    ∷ (0x8e6024846a34e99a, 0xd84de12d400c7d77)
    ∷ (0x1abbcdc362187e6b, 0xebd4f56fd22f68b1)
    ∷ (0x8ff710cab266c505, 0x60e3fe141bc7793c)
    ∷ (0x68a9b28a4b603b6f, 0x2ad6527fcebc6381)
    ∷ (0x58053b3469db7780, 0x9a4007450648a3cf)
    ∷ (0xb19d42260a27c25c, 0x4f2e11b3575b8116)
    ∷ (0x49f6c910afe0defb, 0xf39c2b6aa46ee7be)
    ∷ (0x41c4aa25a0357d89, 0x7aa5d36139f9c7a3)
    ∷ (0x88949ce3ff1b015e, 0xce2fa3bb59f3650e)
    ∷ (0x85281b63ce173e8a, 0x5a45386d300551b7)
    ∷ (0x6515350a7a6c04bb, 0xbebcc9a9a74a5738)
    ∷ (0x51a06c4fbe5cf86d, 0xabd7e077c0148799)
    ∷ (0x389eea8b2d6eef9d, 0x39afad315563e053)
    ∷ (0x99676ec73920a825, 0xa7f38f94fbd5217f)
    ∷ (0x06f4b867952fe8c4, 0x1662429619ff1879)
    ∷ (0x84bf2f2d16451215, 0xe2eb27546bce55fc)
    ∷ (0xd7f22bfedbbdb285, 0xfaa3f9511d8fdaf3)
    ∷ (0x34b55945c430fcd6, 0x156b29de675ed0a1)
    ∷ (0x9f93d6a0ac0f40e1, 0xb191cd02e22a3906)
    ∷ (0x0dbc8780310c3fd4, 0x946a9bd669f634b9)
    ∷ (0x0000000000000000, 0x0000000000000000)
    ∷ (0x824b974a836afad1, 0xf48965c272314d85)
    ∷ (0x9e04e2ee745d6c7e, 0x093fd23bb9e13d4d)
    ∷ (0xa1f9844c144e47b8, 0x9e5c22a5aeb6c12c)
    ∷ []
